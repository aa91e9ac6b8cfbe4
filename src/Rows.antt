-- ===== src/Rows.antt =====
-- A table of SQLite as the list of its rows: what UPDATE and its row count do.
pub mod Snapshot
use i_breeze.Prelude.{
  ℕ, suc, ◌+◌, Bool, true, false, ◌&&◌, ◌≡◌, refl, ap, List, [], ◌∷◌, ◌++◌, map, Memᴰ, keep_if,
  keep_if-kept, keep_if-left, Bool-cases, inl, inr, if◌then◌else◌, arith,
}

module _ {ℓ} {A : Type ℓ} where
  -- `UPDATE ... SET change WHERE test`
  unfoldable pub update_where : (A → Bool) → (A → A) → List A → List A
  update_where test change [] = []
  update_where test change (r ∷ rows) =
      (if test r then change r else r) ∷ update_where test change rows

  -- `cursor.rowcount`
  unfoldable pub count_where : (A → Bool) → List A → ℕ
  count_where test [] = 0
  count_where test (r ∷ rows) = (if test r then 1 else 0) + count_where test rows

  pub update_where-map :
      (test : A → Bool) (change : A → A) (rows : List A)
      → update_where test change rows ≡ map (λ r. if test r then change r else r) rows
  unfolding update_where
  update_where-map test change [] = refl
  update_where-map test change (r ∷ rows) =
      ap (λ x. (if test r then change r else r) ∷ x) (update_where-map test change rows)

  -- Rows that do not match.
  abbrev pub NoneMatch : (A → Bool) → List A → Type ℓ
  NoneMatch test rows = (r : A) → Memᴰ r rows → test r ≡ false

  pub update_where-none :
      (test : A → Bool) (change : A → A) (rows : List A)
      → NoneMatch test rows
      → update_where test change rows ≡ rows
  unfolding update_where
  update_where-none test change [] h = refl
  update_where-none test change (r ∷ rows) h =
      rw (h r (Memᴰ.head refl), update_where-none test change rows (λ x i. h x (Memᴰ.tail i))) refl

  pub count_where-none :
      (test : A → Bool) (rows : List A) → NoneMatch test rows → count_where test rows ≡ 0
  unfolding count_where
  count_where-none test [] h = refl
  count_where-none test (r ∷ rows) h =
      rw (h r (Memᴰ.head refl), count_where-none test rows (λ x i. h x (Memᴰ.tail i))) refl

  -- One row in the middle that matches, and no other.
  pub update_where-one :
      (test : A → Bool) (change : A → A) (xs : List A) (r : A) (ys : List A)
      → NoneMatch test xs
      → test r ≡ true
      → NoneMatch test ys
      → update_where test change (xs ++ (r ∷ ys)) ≡ xs ++ (change r ∷ ys)
  unfolding update_where
  update_where-one test change [] r ys h e k = rw (e, update_where-none test change ys k) refl
  update_where-one test change (x ∷ xs) r ys h e k =
      rw (h x (Memᴰ.head refl), update_where-one test change xs r ys (λ y i. h y (Memᴰ.tail i)) e k)
        refl

  pub count_where-one :
      (test : A → Bool) (xs : List A) (r : A) (ys : List A)
      → NoneMatch test xs
      → test r ≡ true
      → NoneMatch test ys
      → count_where test (xs ++ (r ∷ ys)) ≡ 1
  unfolding count_where
  count_where-one test [] r ys h e k = rw (e, count_where-none test ys k) refl
  count_where-one test (x ∷ xs) r ys h e k =
      rw (h x (Memᴰ.head refl), count_where-one test xs r ys (λ y i. h y (Memᴰ.tail i)) e k) refl

  pub NoneMatch-append :
      (test : A → Bool) (xs : List A) (r : A)
      → NoneMatch test xs
      → test r ≡ false
      → NoneMatch test (xs ++ (r ∷ []))
  NoneMatch-append test [] r h e x (Memᴰ.head q) = rw q e
  NoneMatch-append test [] r h e x (Memᴰ.tail i) = elim i [ ]
  NoneMatch-append test (y ∷ xs) r h e x (Memᴰ.head q) = h x (Memᴰ.head q)
  NoneMatch-append test (y ∷ xs) r h e x (Memᴰ.tail i) =
      NoneMatch-append test xs r (λ z j. h z (Memᴰ.tail j)) e x i

  pub map_same : (f : A → A) (rows : List A) → ((r : A) → f r ≡ r) → rows ≡ map f rows
  map_same f [] h = refl
  map_same f (r ∷ rows) h = rw (h r, ← map_same f rows h) refl

  pub map-update_where :
      (g h : A → A) (test : A → Bool) (change : A → A) (rows : List A)
      → ((r : A) → g (if test r then change r else r) ≡ h r)
      → map g (update_where test change rows) ≡ map h rows
  unfolding update_where
  map-update_where g h test change [] e = refl
  map-update_where g h test change (r ∷ rows) e =
      rw (e r, map-update_where g h test change rows e) refl

  pub keep_if_twice :
      (p q h : A → Bool) (rows : List A)
      → ((r : A) → h r ≡ (q r && p r))
      → keep_if p (keep_if q rows) ≡ keep_if h rows
  keep_if_twice p q h [] e = refl
  keep_if_twice p q h (r ∷ rows) e = elim (Bool-cases (q r)) [
    | inl a ↦ elim (Bool-cases (p r)) [
      | inl b ↦
          rw
            (
              keep_if-kept q r rows a,
              keep_if-kept p r (keep_if q rows) b,
              keep_if-kept h r rows (rw (e r, a, b) refl),
              keep_if_twice p q h rows e,
            )
            refl
      | inr b ↦
          rw
            (
              keep_if-kept q r rows a,
              keep_if-left p r (keep_if q rows) b,
              keep_if-left h r rows (rw (e r, a, b) refl),
              keep_if_twice p q h rows e,
            )
            refl
    ]
    | inr a ↦
        rw
          (
            keep_if-left q r rows a,
            keep_if-left h r rows (rw (e r, a) refl),
            keep_if_twice p q h rows e,
          )
          refl
  ]

  pub keep_if_all : (p : A → Bool) (rows : List A) → ((r : A) → p r ≡ true) → keep_if p rows ≡ rows
  keep_if_all p [] e = refl
  keep_if_all p (r ∷ rows) e = rw (keep_if-kept p r rows (e r), keep_if_all p rows e) refl
