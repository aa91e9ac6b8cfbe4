-- ===== src/Rpc/Frame/Prefix.antt =====
-- A stream of sidecar/ibreeze/rpc/frame.py that ends within a frame.
use i_breeze.Prelude.{
  ℕ, ◌<◌, String, Option, List, [], ◌∷◌, ◌++◌, length, ◌≡◌, ◌≢◌, refl, sym, ◌∙◌, subst, arith,
}
use i_breeze.Result.{Result, ok, err}
use i_breeze.Rpc.Frame.{
  connection_closed, pack, read_exactly, check_length, encode_frame, read_frame,
}
use i_breeze.Rpc.Frame.RoundTrip.{read_exactly-short, check_length-ok, unpack-pack, encode_frame-ok}
use i_breeze.Prelude.{length-append}

module _ {A : Type 0} where
  cons-head : {x y : A} {xs ys : List A} → x ∷ xs ≡ y ∷ ys → x ≡ y
  cons-head h = cc

  cons-tail : {x y : A} {xs ys : List A} → x ∷ xs ≡ y ∷ ys → xs ≡ ys
  cons-tail h = cc

module _ {J O : Type 0} (dumps : O → String) (loads : String → Result String J)
    (encode : String → List ℕ) (decode : List ℕ → Result String String) (as_object : J → Option O)
    (type_name : J → String) where
  -- The reader says that its connection closed.
  abbrev pub Closed : List ℕ → Type 0
  Closed reader =
      (part : String) × (read_frame dumps loads encode decode as_object type_name reader
        ≡ err (connection_closed part))

  short_header : (p : List ℕ) → length p < 4 → Closed p
  unfolding read_frame
  short_header p h = ("header", rw (read_exactly-short 4 p h) refl)

  short_body :
      (payload p : List ℕ)
      → check_length (length payload) ≡ ok tt
      → length p < length payload
      → Closed (pack (length payload) ++ p)
  unfolding read_frame read_exactly
  short_body payload p c h = (
    "body",
    rw
        (
          unpack-pack (length payload) (check_length-ok _ c).1,
          c,
          read_exactly-short (length payload) p h,
        )
        refl,
  )

  -- A proper prefix of a header and a payload.
  cut_short :
      (payload p q : List ℕ)
      → check_length (length payload) ≡ ok tt
      → q ≢ []
      → p ++ q ≡ pack (length payload) ++ payload
      → Closed p
  cut_short payload [] q c n h = short_header [] (omega arith)
  cut_short payload (a ∷ []) q c n h = short_header _ (ground arith)
  cut_short payload (a ∷ b ∷ []) q c n h = short_header _ (ground arith)
  cut_short payload (a ∷ b ∷ d ∷ []) q c n h = short_header _ (ground arith)
  cut_short payload (a ∷ b ∷ d ∷ e ∷ p) q c n h =
      let h1 = cons-tail h in
      let h2 = cons-tail h1 in
      let h3 = cons-tail h2 in
      let body = cons-tail h3 in
      subst Closed (sym (rw (cons-head h, cons-head h1, cons-head h2, cons-head h3) refl))
        (short_body payload p c (shorter p q payload n body))
    where
      shorter : (p q r : List ℕ) → q ≢ [] → p ++ q ≡ r → length p < length r
      shorter p [] r n h = absurd (n refl)
      shorter p (x ∷ q) r n h = rw⁻¹ h (ground (arith, length-append p (x ∷ q)))

  -- A stream that ends anywhere within a frame is reported as a closed connection: no proper prefix of
  -- what `encode_frame` returned is read as a dict or as another error.
  pub read_frame-prefix :
      (o : O) (bytes p q : List ℕ)
      → encode_frame dumps loads encode decode as_object type_name o ≡ ok bytes
      → p ++ q ≡ bytes
      → q ≢ []
      → Closed p
  read_frame-prefix o bytes p q h s n =
      let e = encode_frame-ok dumps loads encode decode as_object type_name o bytes h in
      cut_short (encode (dumps o)) p q e.0 n (s ∙ sym e.1)
