-- ===== src/Rpc/Frame/RoundTrip.antt =====
-- What is written as frames by sidecar/ibreeze/rpc/frame.py is what is read.
use i_breeze.Prelude.{
  Memᴰ, ℕ, zero, suc, ◌<◌, ◌≤◌, String, Option, none, some, List, [], ◌∷◌, ◌++◌, length, ◌≡◌, ◌≢◌,
  refl, sym, ap, ◌∙◌, arith,
}
use mathlib.Core.List.{append_assoc}
use i_breeze.Result.{Result, ok, err, ◌>>=◌, ok-injective, bind-Ran}
use i_breeze.Rpc.Frame.{
  max_frame_bytes, FrameError, pack, unpack, read_exactly, check_length, encode_frame, parse_body,
  read_frame,
}

pub unpack-pack : (n : ℕ) → n ≤ max_frame_bytes → unpack (pack n) ≡ n
unpack-pack n h = omega arith

pub read_exactly-append :
    (xs rest : List ℕ) → read_exactly (length xs) (xs ++ rest) ≡ some (xs, rest)
unfolding read_exactly
read_exactly-append [] rest = refl
read_exactly-append (x ∷ xs) rest = rw (read_exactly-append xs rest) refl

-- Bytes that end too early are not read.
pub read_exactly-short : (n : ℕ) (xs : List ℕ) → length xs < n → read_exactly n xs ≡ none
unfolding read_exactly
read_exactly-short zero xs h = ground arith
read_exactly-short (suc n) [] h = refl
read_exactly-short (suc n) (x ∷ xs) h = rw (read_exactly-short n xs (omega (arith, h))) refl

pub check_length-ok : (n : ℕ) → check_length n ≡ ok tt → (n ≢ 0) × (n ≤ max_frame_bytes)
unfolding check_length
check_length-ok n h = ground arith

module _ {J O : Type 0} (dumps : O → String) (loads : String → Result String J)
    (encode : String → List ℕ) (decode : List ℕ → Result String String) (as_object : J → Option O)
    (type_name : J → String) where
  -- UTF-8 and json read back what they wrote for a dict.
  abbrev pub ReadsBack : O → Type 0
  ReadsBack o =
      (decode (encode (dumps o)) ≡ ok (dumps o))
      × (j : J) × (loads (dumps o) ≡ ok j)
      × (as_object j ≡ some o)

  parse_body-encode :
      (o : O)
      → ReadsBack o
      → parse_body dumps loads encode decode as_object type_name (encode (dumps o)) ≡ ok o
  unfolding parse_body
  parse_body-encode o (d, j, l, a) = rw (d, l, a, parse_body) refl

  -- What `encode_frame` returns: a length that fits and the payload.
  pub encode_frame-ok :
      (o : O) (bytes : List ℕ)
      → encode_frame dumps loads encode decode as_object type_name o ≡ ok bytes
      → (check_length (length (encode (dumps o))) ≡ ok tt)
        × (pack (length (encode (dumps o))) ++ encode (dumps o) ≡ bytes)
  unfolding encode_frame
  encode_frame-ok o bytes h = go (check_length (length (encode (dumps o)))) refl h
    where
      go :
          (r : Result FrameError (Unit {0}))
          → check_length (length (encode (dumps o))) ≡ r
          → (r >>= λ fits. ok (pack (length (encode (dumps o))) ++ encode (dumps o))) ≡ ok bytes
          → (check_length (length (encode (dumps o))) ≡ ok tt)
            × (pack (length (encode (dumps o))) ++ encode (dumps o) ≡ bytes)
      go (ok tt) e h = (e, ok-injective h)
      go (err x) e h = ground arith

  -- One frame and what follows it.
  read_frame-append :
      (o : O) (rest : List ℕ)
      → ReadsBack o
      → check_length (length (encode (dumps o))) ≡ ok tt
      → read_frame dumps loads encode decode as_object type_name
          (pack (length (encode (dumps o))) ++ (encode (dumps o) ++ rest))
        ≡ ok (o, rest)
  unfolding read_frame read_exactly
  read_frame-append o rest r c =
      let n = unpack-pack (length (encode (dumps o))) (check_length-ok _ c).1 in
      rw (n, c, read_exactly-append (encode (dumps o)) rest, parse_body-encode o r) refl

  -- Frames written one after the other, and frames read one after the other.
  unfoldable pub encode_each : List O → Result FrameError (List ℕ)
  encode_each [] = ok []
  encode_each (o ∷ os) = do
    bytes ← encode_frame dumps loads encode decode as_object type_name o
    more ← encode_each os
    ok (bytes ++ more)

  unfoldable pub read_each : ℕ → List ℕ → Result FrameError (List O × List ℕ)
  read_each zero reader = ok ([], reader)
  read_each (suc n) reader = do
    first ← read_frame dumps loads encode decode as_object type_name reader
    more ← read_each n first.1
    ok (first.0 ∷ more.0, more.1)

  -- Dicts that are written as frames one after the other are read back in that order, each whole, and
  -- what follows them is left in the reader. JSON and UTF-8 read back what they write for each dict.
  pub read_each-encode_each :
      (os : List O) (bytes rest : List ℕ)
      → ((o : O) → Memᴰ o os → ReadsBack o)
      → encode_each os ≡ ok bytes
      → read_each (length os) (bytes ++ rest) ≡ ok (os, rest)
  unfolding encode_each read_each
  read_each-encode_each [] bytes rest r h = rw⁻¹ (ok-injective h) refl
  read_each-encode_each (o ∷ os) bytes rest r h =
      let x =
        bind-Ran (encode_frame dumps loads encode decode as_object type_name o)
          (λ d. encode_each os >>= λ more. ok (d ++ more)) h in
      let y = bind-Ran (encode_each os) (λ more. ok (x.value ++ more)) x.after in
      let e = encode_frame-ok o x.value x.first in
      let payload = encode (dumps o) in
      let front : bytes ++ rest ≡ pack (length payload) ++ (payload ++ (y.value ++ rest)) =
        ap (λ b. b ++ rest) (sym (ok-injective y.after))
        ∙ append_assoc x.value y.value rest
        ∙ ap (λ b. b ++ (y.value ++ rest)) (sym e.1)
        ∙ append_assoc (pack (length payload)) payload (y.value ++ rest) in
      rw
        (
          front,
          read_frame-append o (y.value ++ rest) (r o (Memᴰ.head refl)) e.0,
          read_each-encode_each os y.value rest (λ z i. r z (Memᴰ.tail i)) y.first,
        )
        refl
