-- ===== src/Rows/Snapshot.antt =====
-- A loop over rows that were read before, with an UPDATE by key for each of them.
use i_breeze.Prelude.{
  String, str_eq, eq_iff, Bool, true, false, not, ◌&&◌, ◌||◌, ◌≡◌, refl, sym, ◌∙◌, List, [], ◌∷◌,
  map, any, any-false_iff, keep_if, Mem→keep_if, Memᴰ, if◌then◌else◌, Bool-cases, inl, inr, arith,
}
use i_breeze.Rows.{update_where, map_same, map-update_where}

module _ {A : Type 0} (key : A → String) (kept : String → Bool) (selected : A → Bool)
    (change : A → A) where
  abbrev pub same_key : A → A → Bool
  same_key row a = str_eq (key a) (key row) && selected a

  -- The rows after the loop, which leaves out the keys that are kept.
  unfoldable pub update_each : List A → List A → List A
  update_each [] table = table
  update_each (row ∷ rows) table =
      let rest = update_each rows table in
      let changed = update_each rows (update_where (same_key row) change table) in
      if kept (key row) then rest else changed

  abbrev hit : List A → A → Bool
  hit rows a = any (λ row. not (kept (key row)) && same_key row a) rows

  never_twice : (rows : List A) (a : A) → selected a ≡ false → hit rows a ≡ false
  never_twice rows a e =
      (any-false_iff _ rows).1
        (λ row i. rw e (neither (not (kept (key row))) (str_eq (key a) (key row))))
    where
      neither : (x y : Bool) → (x && (y && false)) ≡ false
      neither x y = ground arith

  update_each-map :
      (rows table : List A)
      → ((a : A) → selected (change a) ≡ false)
      → update_each rows table ≡ map (λ a. if hit rows a then change a else a) table
  unfolding update_each
  update_each-map [] table c = map_same _ table (λ a. refl)
  update_each-map (row ∷ rows) table c = elim (Bool-cases (kept (key row))) [
    | inl k ↦ rw k (update_each-map rows table c)
    | inr k ↦ rw k (
        update_each-map rows (update_where (same_key row) change table) c
        ∙ map-update_where _ _ (same_key row) change table one)
  ]
    where
      one :
          (a : A)
          → (if hit rows (if same_key row a then change a else a)
              then change (if same_key row a then change a else a)
              else if same_key row a
              then change a
              else a)
            ≡ (if same_key row a || hit rows a then change a else a)
      one a = elim (Bool-cases (same_key row a)) [
        | inl s ↦ rw (s, never_twice rows (change a) (c a)) refl
        | inr s ↦ rw s refl
      ]

  any_of : (p : A → Bool) (rows : List A) (x : A) → Memᴰ x rows → p x ≡ true → any p rows ≡ true
  any_of p rows x i e = elim (Bool-cases (any p rows)) [
    | inl t ↦ t
    | inr t ↦ let z : true ≡ false = sym e ∙ (any-false_iff p rows).0 t x i in ground arith
  ]

  hit-snapshot :
      (table : List A) (a : A)
      → Memᴰ a table
      → hit (keep_if selected table) a ≡ (selected a && not (kept (key a)))
  hit-snapshot table a i = elim (Bool-cases (selected a)) [
    | inl s ↦ elim (Bool-cases (kept (key a))) [
      | inl k ↦ none_hit k ∙ sym (rw (s, k) refl)
      | inr k ↦ self_hit s k ∙ sym (rw (s, k) refl)
    ]
    | inr s ↦ never_twice (keep_if selected table) a s ∙ rw s refl
  ]
    where
      same_kept : (row : A) → kept (key a) ≡ true → (not (kept (key row)) && same_key row a) ≡ false
      same_kept row k = elim (Bool-cases (str_eq (key a) (key row))) [
        | inl e ↦ rw (← (eq_iff (key a) (key row)).0 e, k) refl
        | inr e ↦ rw e (ground arith)
      ]

      none_hit : kept (key a) ≡ true → hit (keep_if selected table) a ≡ false
      none_hit k = (any-false_iff _ (keep_if selected table)).1 (λ row j. same_kept row k)

      self_hit : selected a ≡ true → kept (key a) ≡ false → hit (keep_if selected table) a ≡ true
      self_hit s k =
          any_of _ (keep_if selected table) a (Mem→keep_if selected a table i s)
            (rw (k, s, (eq_iff (key a) (key a)).1 refl) refl)

  map_congruent :
      (f g : A → A) (table : List A)
      → ((a : A) → Memᴰ a table → f a ≡ g a)
      → map f table ≡ map g table
  map_congruent f g [] h = refl
  map_congruent f g (a ∷ table) h =
      rw (h a (Memᴰ.head refl), map_congruent f g table (λ x i. h x (Memᴰ.tail i))) refl

  -- The loop over the selected rows changes them but those with a key that is kept.
  pub update_each-snapshot :
      (table : List A)
      → ((a : A) → selected (change a) ≡ false)
      → update_each (keep_if selected table) table
        ≡ map (λ a. if selected a && not (kept (key a)) then change a else a) table
  update_each-snapshot table c =
      update_each-map (keep_if selected table) table c
      ∙ map_congruent _ _ table (λ a i. rw (hit-snapshot table a i) refl)
