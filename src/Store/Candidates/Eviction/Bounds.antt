-- ===== src/Store/Candidates/Eviction/Bounds.antt =====
-- How much evict_captured_audio_over_cap of crates/idiolect-adapter-sqlite/src/repository.rs evicts.
use idiolect.Common.{
  ℕ, zero, suc, ◌+◌, ◌-◌, ◌<◌, ◌≤◌, ◌≡◌, sym, refl, true, false, some, List, [], ◌∷◌, ◌++◌, arith,
  Bool-cases, inl, inr, leb, take, drop, map, if◌then◌else◌, ◌∙◌, Option-cases,
}
use mathlib.Core.List.{append_assoc, append-nil}
use native.Mathlib.Nat.{zero-add}
use idiolect.Text.{Text}
use idiolect.Store.{evicted, Db, ok}
use idiolect.Store.Table.{insert}
use idiolect.Store.Candidates.{
  ManifestV2TrainingCandidate, with_status, training_candidates_pending_sync,
}
use idiolect.Store.Candidates.Eviction.{
  start, FileAudioStore, Evicting, saturating_add, u64_max, sized, evict_loop, evict_sized,
  evict_captured_audio_over_cap,
}

abbrev pub Sized : Type 0
Sized = List (ManifestV2TrainingCandidate × ℕ)

abbrev pub sizes : Sized → ℕ
sizes [] = 0
sizes ((c, size) ∷ cs) = size + sizes cs

-- The fewest of the oldest candidates whose eviction brings the rest under the cap.
abbrev pub evictions : ℕ → Sized → ℕ
evictions cap [] = 0
evictions cap (c ∷ cs) = if leb (sizes (c ∷ cs)) cap then 0 else suc (evictions cap cs)

abbrev pub audio_of : ManifestV2TrainingCandidate × ℕ → Text × Text
audio_of (c, size) = (c.user_id, c.utterance_id)

-- The candidates marked as evicted, one after another.
unfoldable pub mark : Sized → Db → Db
mark [] db = db
mark ((c, size) ∷ cs) db = mark cs (with_status c.training_candidate_id evicted db)

evictions_fit : (cap : ℕ) (cs : Sized) → sizes (drop (evictions cap cs) cs) ≤ cap
evictions_fit cap [] = omega arith
evictions_fit cap ((c, size) ∷ cs) = ground (arith, evictions_fit cap cs)

evictions_least : (cap n : ℕ) (cs : Sized) → n < evictions cap cs → cap < sizes (drop n cs)
evictions_least cap n [] h = absurd (omega arith)
evictions_least cap zero ((c, size) ∷ cs) h = ground arith
evictions_least cap (suc n) ((c, size) ∷ cs) h = ground (arith, evictions_least cap n cs)

module _ (store : FileAudioStore)
    (deletes : (u t : Text) → store.delete_source_audio_for u t ≡ true) (cap : ℕ) where
  evicted_one : ManifestV2TrainingCandidate → ℕ → Evicting → Evicting
  evicted_one c size e = record e {
    db = with_status c.training_candidate_id evicted e.db;
    deleted = insert (c.user_id, c.utterance_id) e.deleted;
    total = e.total - size;
    evicted_count = suc e.evicted_count;
  }

  evict_loop_stops :
      (c : ManifestV2TrainingCandidate × ℕ) (cs : Sized) (e : Evicting)
      → leb e.total cap ≡ true
      → evict_loop store cap (c ∷ cs) e ≡ e
  unfolding evict_loop
  evict_loop_stops (c, size) cs e h = rw h refl

  evict_loop_goes :
      (c : ManifestV2TrainingCandidate) (size : ℕ) (cs : Sized) (e : Evicting)
      → leb e.total cap ≡ false
      → e.failed ≡ false
      → evict_loop store cap ((c, size) ∷ cs) e ≡ evict_loop store cap cs (evicted_one c size e)
  unfolding evict_loop evicted_one
  evict_loop_goes c size cs e h works = ground (arith, deletes c.user_id c.utterance_id)

  evict_loop_lem :
      (cs : Sized) (e : Evicting)
      → e.failed ≡ false
      → e.total ≡ sizes cs
      → ((evict_loop store cap cs e).failed ≡ false)
        × ((evict_loop store cap cs e).evicted_count ≡ e.evicted_count + evictions cap cs)
        × ((evict_loop store cap cs e).db ≡ mark (take (evictions cap cs) cs) e.db)
        × ((evict_loop store cap cs e).deleted
            ≡ e.deleted ++ map audio_of (take (evictions cap cs) cs))
  unfolding mark evicted_one
  evict_loop_lem [] e works total =
      unfold evict_loop in (works, omega arith, refl, sym (append-nil e.deleted))
  evict_loop_lem ((c, size) ∷ cs) e works total = elim (Bool-cases (leb e.total cap)) [
    | inl fits ↦
        let fits' : leb (size + sizes cs) cap ≡ true = ground arith in
        rw (evict_loop_stops (c, size) cs e fits, fits')
          (works, omega arith, refl, sym (append-nil e.deleted))
    | inr over ↦
        let over' : leb (size + sizes cs) cap ≡ false = ground arith in
        let (f, n, d, g) = evict_loop_lem cs (evicted_one c size e) works (omega arith) in
        rw (evict_loop_goes c size cs e over works, over')
          (
            f,
            n ∙ omega arith,
            d,
            g
                ∙ append_assoc e.deleted (audio_of (c, size) ∷ [])
                    (map audio_of (take (evictions cap cs) cs)),
          )
  ]

  evict_sized_lem :
      (cs : Sized) (total : ℕ) (db : Db)
      → total ≡ sizes cs
      → evict_sized store cap (some (cs, total)) db ≡ (
        ok (evictions cap cs),
        mark (take (evictions cap cs) cs) db,
        map audio_of (take (evictions cap cs) cs),
      )
  unfolding evict_sized
  evict_sized_lem cs total db e =
      let (f, n, d, g) = evict_loop_lem cs (start db total) refl e in
      rw (f, n, d, g) (rw zero-add refl)

abbrev pub candidate_of : ManifestV2TrainingCandidate × ℕ → ManifestV2TrainingCandidate
candidate_of (c, size) = c

sized_parts :
    (store : FileAudioStore) (c d : ManifestV2TrainingCandidate) (size : ℕ)
    (pending : List ManifestV2TrainingCandidate) (t : ℕ) (cs : Sized) (total : ℕ)
    → sized store (c ∷ pending) t ≡ some ((d, size) ∷ cs, total)
    → (store.source_audio_size_by_key c.audio_object_key ≡ some size)
      × (sized store pending (saturating_add t size) ≡ some (cs, total))
      × (d ≡ c)
unfolding sized
sized_parts store c d size pending t cs total e =
    elim (Option-cases (store.source_audio_size_by_key c.audio_object_key)) [
      | inl unread ↦ absurd (ground arith)
      | inr (n, read) ↦ elim (Option-cases (sized store pending (saturating_add t n))) [
        | inl unread ↦ absurd (ground arith)
        | inr ((rest, sum), found) ↦ (ground arith, ground arith, ground arith)
      ]
    ]

-- The measured candidates are those that were pending, and their total is exact while it fits a u64.
sized_lem :
    (store : FileAudioStore) (pending : List ManifestV2TrainingCandidate) (t : ℕ) (cs : Sized)
    (total : ℕ)
    → sized store pending t ≡ some (cs, total)
    → t + sizes cs ≤ u64_max
    → (total ≡ t + sizes cs) × (map candidate_of cs ≡ pending)
unfolding sized
sized_lem store [] t [] total e fits = (ground arith, refl)
sized_lem store [] t (m ∷ cs) total e fits = absurd (ground arith)
sized_lem store (c ∷ pending) t [] total e fits = absurd (ground arith)
sized_lem store (c ∷ pending) t ((d, size) ∷ cs) total e fits =
    let (measured, sum, same) = sized_parts store c d size pending t cs total e in
    let (exact, rest) =
      sized_lem store pending (saturating_add t size) cs total sum (ground arith) in
    (ground arith, rw (same, rest) refl)

-- If every deletion of a file succeeds, and the sizes of the user's pending candidates can be read and
-- add up to what a u64 holds, then the call evicts the oldest of them until the rest is under the cap:
-- it marks exactly these as evicted, deletes their audio, and returns their number, and the sizes of
-- the rest are at most the cap.
pub evict_under_cap :
    (store : FileAudioStore)
    → ((u t : Text) → store.delete_source_audio_for u t ≡ true)
    → (cap : ℕ) (u : Text) (db : Db) (cs : Sized) (total : ℕ)
    → sized store (training_candidates_pending_sync u db) 0 ≡ some (cs, total)
    → sizes cs ≤ u64_max
    → (evict_captured_audio_over_cap u cap store db ≡ (
      ok (evictions cap cs),
      mark (take (evictions cap cs) cs) db,
      map audio_of (take (evictions cap cs) cs),
    ))
      × (map candidate_of cs ≡ training_candidates_pending_sync u db)
      × (sizes (drop (evictions cap cs) cs) ≤ cap)
unfolding evict_captured_audio_over_cap
evict_under_cap store deletes cap u db cs total e fits =
    let (exact, same) =
      sized_lem store (training_candidates_pending_sync u db) 0 cs total e (omega arith) in
    (rw e (evict_sized_lem store deletes cap cs total db (omega arith)), same, evictions_fit cap cs)
