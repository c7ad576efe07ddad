-- ===== src/Store/Bolt/Mode/Keeping.antt =====
-- A file keeps the mode that it was first opened and written in.
use vrata.Common.{
  ◌<◌, ◌≡◌, refl, ap, ◌∙◌, inl, inr, Bool, true, false, not, Option, none, some, arith, str_eq,
  Bool-cases, length,
}
use vrata.Store.Platform.{Platform, Documented}
use vrata.Store.Bolt.{Answer, done, refused, failed, or_failed, and_then, Store}
use vrata.Store.Bolt.Mode.{marker_key, is_marker, data_encrypted, has_data, check_encryption_mode}

-- What the check promises: a store that it refuses is marked as encrypted where there is no cipher, and
-- not marked where there is one; for one that it accepts the same mode is accepted again, without a change,
-- and the secrets and snapshots are untouched; a store that was opened with a cipher is refused
-- without one, and one that was opened without and has data is refused with one.
abbrev pub Keeps : (p : Platform) → Bool → Store p → Answer (Store p) → Type 0
Keeps p c s (refused e) = ⊥
Keeps p c s failed = data_encrypted p s ≡ not c
Keeps p true s (done t) =
    (check_encryption_mode p true t ≡ done t)
    × (check_encryption_mode p false t ≡ failed)
    × (t.secrets ≡ s.secrets)
    × (t.snapshots ≡ s.snapshots)
Keeps p false s (done t) =
    (t ≡ s)
    × (check_encryption_mode p false t ≡ done t)
    × (has_data p t ≡ true → check_encryption_mode p true t ≡ failed)

module _ (p : Platform) where
  open p use {bbolt, bytes_of}

  marked :
      (s t : Store p)
      → data_encrypted p t ≡ true
      → t.secrets ≡ s.secrets
      → t.snapshots ≡ s.snapshots
      → Keeps p true s (done t)
  unfolding check_encryption_mode
  marked s t e f g = (rw e refl, rw e refl, f, g)

  put_marker :
      (s : Store p) (o : Option bbolt.Bucket)
      → bbolt.put s.meta marker_key (bytes_of "true") ≡ o
      → data_encrypted p s ≡ false
      → Documented p
      → 0 < length (bytes_of "true")
      → Keeps p true s (and_then (or_failed o) (λ m. record s { meta = m }))
  unfolding data_encrypted
  put_marker s none e plain laws long = plain
  put_marker s (some m) e plain laws long =
      marked s (record s { meta = m })
        (ap (is_marker p)
            (laws.bbolt_lem.get-put s.meta m marker_key marker_key (bytes_of "true") e)
          ∙ ground (arith, long, ap (λ x. str_eq x "true") (laws.text_of-bytes_of "true")))
        refl refl

  -- If the platform is as documented, and "true" has bytes, then a store that the check refuses is
  -- marked as encrypted where there is no cipher, and not marked where there is one, and what the check
  -- accepts keeps its mode: the same mode is accepted again, without a change, and the
  -- secrets and snapshots are untouched; a store that was opened with a cipher is refused without one,
  -- and one that was opened without and has data is refused with one.
  pub check_encryption_mode-Keeps :
      (c : Bool) (s : Store p)
      → Documented p
      → 0 < length (bytes_of "true")
      → Keeps p c s (check_encryption_mode p c s)
  unfolding check_encryption_mode
  check_encryption_mode-Keeps true s laws long = elim (Bool-cases (data_encrypted p s)) [
    | inl there ↦ rw there (marked s s there refl refl)
    | inr plain ↦ elim (Bool-cases (has_data p s)) [
      | inl old ↦ rw (plain, old) plain
      | inr new_ ↦
          rw (plain, new_)
            (put_marker s (bbolt.put s.meta marker_key (bytes_of "true")) refl plain laws long)
    ]
  ]
  check_encryption_mode-Keeps false s laws long = elim (Bool-cases (data_encrypted p s)) [
    | inl there ↦ rw there there
    | inr plain ↦ rw plain (refl, rw plain refl, λ old. rw (plain, old) refl)
  ]
