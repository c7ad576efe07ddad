-- ===== src/Store/Encrypt/Opening.antt =====
-- What is sealed opens again.
use vrata.Common.{
  ℕ, zero, suc, ◌≡◌, refl, ap, ◌∙◌, false, Option, none, some, [], ◌∷◌, ◌++◌, arith, ltb, length,
  length-append, unwrap,
}
use vrata.Store.Encrypt.{Bytes, Aead, nonce_of, take_bytes, drop_bytes, seal, open_}

length-nonce_of : (n : ℕ) (draw : ℕ → ℕ) → length (nonce_of n draw) ≡ n
unfolding nonce_of
length-nonce_of zero draw = refl
length-nonce_of (suc n) draw = ap suc (length-nonce_of n draw)

take-append : (xs ys : Bytes) → take_bytes (length xs) (xs ++ ys) ≡ xs
take-append [] ys = refl
take-append (x ∷ xs) ys = ap (λ t. x ∷ t) (take-append xs ys)

drop-append : (xs ys : Bytes) → drop_bytes (length xs) (xs ++ ys) ≡ ys
drop-append [] ys = refl
drop-append (x ∷ xs) ys = drop-append xs ys

opened :
    (aead : Aead) (nonce text : Bytes)
    → length nonce ≡ aead.nonce_size
    → open_ aead (nonce ++ text) ≡ aead.open_with nonce text
unfolding open_
opened aead nonce text e =
    let enough : ltb (length (nonce ++ text)) aead.nonce_size ≡ false =
      ground (arith, length-append nonce text) in
    rw (enough, ← e, take-append nonce text, drop-append nonce text) refl

-- If the AEAD opens what it sealed under the nonce, Open gives back what Seal was given.
pub open-seal :
    (aead : Aead) (draw : Option (ℕ → ℕ)) (plain sealed : Bytes)
    → ((nonce : Bytes) → aead.open_with nonce (aead.seal_with nonce plain) ≡ some plain)
    → seal aead draw plain ≡ some sealed
    → open_ aead sealed ≡ some plain
unfolding seal open_
open-seal aead none plain sealed opens e = cc
open-seal aead (some draw) plain sealed opens e =
    let nonce = nonce_of aead.nonce_size draw in
    rw (← (unwrap _ _ e)) (
      opened aead nonce (aead.seal_with nonce plain) (length-nonce_of aead.nonce_size draw)
      ∙ opens nonce)
