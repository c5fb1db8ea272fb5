-- ===== src/Bytes/RoundTrip.antt =====
-- What the readers of the byte layer return on what its writers wrote.
use mcap.Prelude.{
  ℕ, zero, suc, ◌/◌, ◌^◌, ◌<◌, ◌≡◌, refl, true, [], ◌++◌, append_assoc, append-nil, arith, length,
  length-append, take-append, drop-append, le→leb,
}
use native.Mathlib.Nat.{pow-suc, mod-eq_of_lt}
use mcap.Error.{Bytes, ok}
use mcap.Bytes.{Parser, pure, ◌>>=◌, put_le, get_le, get_bytes, is_utf8, get_string, put_string}

-- `p` reads `bs` as `a`, and leaves what follows.
pub record Decodes {ℓ} {A : Type ℓ} (p : Parser A) (bs : Bytes) (a : A) : Type ℓ where
  pub at : (rest : Bytes) → p (bs ++ rest) ≡ ok (a, rest)

module _ {ℓ} {A : Type ℓ} where
  pub Decodes-pure : (a : A) → Decodes (pure a) [] a
  unfolding pure
  Decodes-pure a = record { at = λ rest. refl }

  pub Decodes-self : {p : Parser A} {bs : Bytes} {a : A} → Decodes p bs a → p bs ≡ ok (a, [])
  Decodes-self {p} {bs} {a} d = rw append-nil at (d.at [])

module _ {ℓ κ} {A : Type ℓ} {B : Type κ} where
  pub Decodes-bind :
      {p : Parser A} {bs cs : Bytes} {a : A} {b : B} (f : A → Parser B)
      → Decodes p bs a
      → Decodes (f a) cs b
      → Decodes (p >>= f) (bs ++ cs) b
  unfolding ◌>>=◌
  Decodes-bind {p} {bs} {cs} {a} {b} f d e = record {
    at = λ rest. rw (append_assoc bs cs rest, d.at (cs ++ rest)) (e.at rest);
  }

  -- the last field of a structure
  pub Decodes-last :
      {p : Parser A} {bs : Bytes} {a : A} (f : A → B)
      → Decodes p bs a
      → Decodes (p >>= λ x. pure (f x)) bs (f a)
  unfolding ◌>>=◌ pure
  Decodes-last f d = record { at = λ rest. rw (d.at rest) }

  -- a last step that checks what was read
  pub Decodes-checked :
      {p : Parser A} {bs : Bytes} {a : A} {b : B} (f : A → Parser B)
      → Decodes p bs a
      → f a ≡ pure b
      → Decodes (p >>= f) bs b
  unfolding ◌>>=◌
  Decodes-checked f d e = record { at = λ rest. rw (d.at rest, e) (unfold pure in refl) }

get_le-put_le_cons :
    (k v : ℕ) (rest : Bytes)
    → get_le k (put_le k (v / 256) ++ rest) ≡ ok (v / 256, rest)
    → get_le (suc k) (put_le (suc k) v ++ rest) ≡ ok (v, rest)
unfolding get_le put_le
get_le-put_le_cons k v rest ih = rw ih (ground arith)

-- An integer of `k` bytes that fits them is read back.
pub get_le-put_le : (k v : ℕ) → v < 256 ^ k → Decodes (get_le k) (put_le k v) v
get_le-put_le zero v h = unfold get_le put_le in record { at = λ rest. ground arith }
get_le-put_le (suc k) v h = record {
  at = λ rest.
      get_le-put_le_cons k v rest
        ((get_le-put_le k (v / 256) (omega (arith, pow-suc 256 k))).at rest);
}

pub length-put_le : (k v : ℕ) → length (put_le k v) ≡ k
unfolding put_le
length-put_le zero v = refl
length-put_le (suc k) v = omega (arith, length-put_le k (v / 256))

pub get_bytes-append : (s : Bytes) → Decodes (get_bytes (length s)) s s
unfolding get_bytes
get_bytes-append s = record {
  at = λ rest.
      rw (le→leb (length s) (length (s ++ rest)) (rw length-append (omega arith)))
        (rw (take-append, drop-append));
}

-- The strings that a u32 length can announce.
pub record StringFits (s : Bytes) : Type 0 where
  pub is_text : is_utf8 s ≡ true
  pub short : length s < 2 ^ 32

-- A string of UTF-8 that is shorter than 2^32 bytes is read back from its bytes, whatever follows
-- them.
pub get_string-put_string : (s : Bytes) → StringFits s → Decodes get_string (put_string s) s
unfolding get_string put_string
get_string-put_string s h = rw (mod-eq_of_lt h.short) (
    Decodes-bind _ (get_le-put_le 4 (length s) h.short)
      (Decodes-checked _ (get_bytes-append s) (rw h.is_text)))
