-- ===== src/Store/Encrypt.antt =====
-- Encryption of the values of the bbolt store: server/internal/encrypt/encrypt.go.
--
-- AES-GCM (crypto/cipher) is an argument, `Aead`. What the random source gives for a nonce is the
-- function `draw` from positions to bytes, and `none` where reading it fails.
pub mod Opening
use vrata.Common.{
  dec_lt, dec_le, ℕ_discrete, ℕ, zero, suc, ◌+◌, ◌-◌, ◌*◌, ◌/◌, ◌%◌, ◌^◌, ◌≤◌, ◌<◌, String, ◌≡◌,
  refl, sym, ap, ap₂, ◌∙◌, ◌≢◌, ◌↔◌, ◌⊎◌, inl, inr, Bool, true, false, not, ◌&&◌, ◌||◌, Option,
  none, some, List, [], ◌∷◌, ◌++◌, map, arith, str_eq, eq_iff, ltb, leb, ◌==◌, if◌then◌else◌,
  ltb→lt, lt→ltb, leb→le, le→leb, ==_iff, Bool-cases, Option-cases, length, get_elem?, replicate,
  filter_by, filter_by_comm, filter_by-append, count_by-append, All-filter_by, any_by, count_by,
  length-append, All,
}

abbrev pub Bytes : Type 0
Bytes = List ℕ

-- cipher.AEAD with a key: its nonce size, and Seal and Open on a nonce and a text.
pub record Aead : Type 0 where
  pub nonce_size : ℕ
  pub seal_with : Bytes → Bytes → Bytes
  pub open_with : Bytes → Bytes → Option Bytes

-- io.ReadFull(rand.Reader, nonce)
pub nonce_of : ℕ → (ℕ → ℕ) → Bytes
nonce_of zero draw = []
nonce_of (suc n) draw = draw n ∷ nonce_of n draw

abbrev pub take_bytes : ℕ → Bytes → Bytes
take_bytes zero xs = []
take_bytes (suc n) [] = []
take_bytes (suc n) (x ∷ xs) = x ∷ take_bytes n xs

abbrev pub drop_bytes : ℕ → Bytes → Bytes
drop_bytes zero xs = xs
drop_bytes (suc n) [] = []
drop_bytes (suc n) (x ∷ xs) = drop_bytes n xs

-- Cipher.Seal
unfoldable pub seal : Aead → Option (ℕ → ℕ) → Bytes → Option Bytes
unfolding nonce_of
seal aead none plain = none
seal aead (some draw) plain =
    let nonce = nonce_of aead.nonce_size draw in some (nonce ++ aead.seal_with nonce plain)

-- Cipher.Open
unfoldable pub open_ : Aead → Bytes → Option Bytes
open_ aead text =
    if ltb (length text) aead.nonce_size
    then none
    else aead.open_with (take_bytes aead.nonce_size text) (drop_bytes aead.nonce_size text)
