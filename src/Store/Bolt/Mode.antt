-- ===== src/Store/Bolt/Mode.antt =====
-- The check that a file is opened in the mode that it was written in: checkEncryptionMode of
-- server/internal/store/bolt/bolt.go, which New calls.
pub mod Keeping
use vrata.Common.{
  dec_lt, dec_le, ℕ_discrete, ℕ, zero, suc, ◌+◌, ◌-◌, ◌*◌, ◌/◌, ◌%◌, ◌^◌, ◌≤◌, ◌<◌, String, ◌≡◌,
  refl, sym, ap, ap₂, ◌∙◌, ◌≢◌, ◌↔◌, ◌⊎◌, inl, inr, Bool, true, false, not, ◌&&◌, ◌||◌, Option,
  none, some, List, [], ◌∷◌, ◌++◌, map, arith, str_eq, eq_iff, ltb, leb, ◌==◌, if◌then◌else◌,
  ltb→lt, lt→ltb, leb→le, le→leb, ==_iff, Bool-cases, Option-cases, length, get_elem?, replicate,
  filter_by, filter_by_comm, filter_by-append, count_by-append, All-filter_by, any_by, count_by,
  length-append, All,
}
use vrata.Store.Encrypt.{Bytes}
use vrata.Store.Platform.{Platform}
use vrata.Store.Bolt.{
  Answer, done, refused, failed, or_failed, and_then, cons_decoded, decode_all, Store, new, publish,
  decoded, find, put_encoded, removed, take_out, list_routes, get_route, save_route, delete_route,
  list_groups, get_group, save_group, delete_group, list_middlewares, get_middleware,
  save_middleware, delete_middleware, list_listeners, get_listener, save_listener, delete_listener,
  list_destinations, get_destination, save_destination, delete_destination,
}

abbrev pub marker_key : String
marker_key = "encrypted"

abbrev pub any_pair : List (String × Bytes) → Bool
any_pair [] = false
any_pair (kv ∷ kvs) = true

module _ (p : Platform) where
  open p use {bbolt, text_of, bytes_of}
  open bbolt use {get, put, pairs}

  abbrev pub is_marker : Option Bytes → Bool
  is_marker none = false
  is_marker (some v) = ltb 0 (length v) && str_eq (text_of v) "true"

  unfoldable pub data_encrypted : Store p → Bool
  data_encrypted s = is_marker (get s.meta marker_key)

  unfoldable pub has_data : Store p → Bool
  has_data s = any_pair (pairs s.secrets) || any_pair (pairs s.snapshots)

  -- Whether there is a cipher is the first argument.
  unfoldable pub check_encryption_mode : Bool → Store p → Answer (Store p)
  unfolding data_encrypted has_data
  check_encryption_mode false s = if data_encrypted s then failed else done s
  check_encryption_mode true s =
      if data_encrypted s
      then done s
      else if has_data s
      then failed
      else and_then (or_failed (put s.meta marker_key (bytes_of "true")))
          (λ m. record s { meta = m })
