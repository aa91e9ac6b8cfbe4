-- ===== src/Routing/Engine/Members.antt =====
-- Where the candidates come from that sidecar/ibreeze/routing/engine.py and ensemble.py beside it choose.
use i_breeze.Prelude.{
  ℕ, zero, suc, ◌≤◌, leb, ◌==◌, Bool, true, false, ◌&&◌, ◌≡◌, List, [], ◌∷◌, ◌++◌, length, Memᴰ,
  Bool-cases, inl, inr, ◌⊎◌, arith,
}
use i_breeze.Routing.Engine.{Candidate, Orders, insert, sorted}
use i_breeze.Routing.Engine.Ensemble.{pick, pick_next, first_n, line_up, select_proposer_candidates}

-- What is in one list is in another.
abbrev pub Within : List Candidate → List Candidate → Type 0
Within xs ys = (c : Candidate) → Memᴰ c xs → Memᴰ c ys

insert-Within :
    (before : Candidate → Candidate → Bool) (c : Candidate) (ds : List Candidate)
    → Within (insert before c ds) (c ∷ ds)
unfolding insert
insert-Within before c [] x i = i
insert-Within before c (d ∷ ds) x i = elim (Bool-cases (before d c)) [
  | inl e ↦ first e (insert-Within before c ds x) (rw e at i)
  | inr e ↦ rw e at i
]
  where
    first :
        before d c ≡ true
        → (Memᴰ x (insert before c ds) → Memᴰ x (c ∷ ds))
        → Memᴰ x (d ∷ insert before c ds)
        → Memᴰ x (c ∷ d ∷ ds)
    first e r (Memᴰ.head q) = Memᴰ.tail (Memᴰ.head q)
    first e r (Memᴰ.tail j) = later (r j)
      where
        later : Memᴰ x (c ∷ ds) → Memᴰ x (c ∷ d ∷ ds)
        later (Memᴰ.head q) = Memᴰ.head q
        later (Memᴰ.tail k) = Memᴰ.tail (Memᴰ.tail k)

pub sorted-Within :
    (before : Candidate → Candidate → Bool) (cs : List Candidate) → Within (sorted before cs) cs
unfolding sorted
sorted-Within before [] x i = i
sorted-Within before (c ∷ cs) x i =
    deeper (sorted-Within before cs x) (insert-Within before c (sorted before cs) x i)
  where
    deeper :
        (Memᴰ x (sorted before cs) → Memᴰ x cs) → Memᴰ x (c ∷ sorted before cs) → Memᴰ x (c ∷ cs)
    deeper r (Memᴰ.head q) = Memᴰ.head q
    deeper r (Memᴰ.tail j) = Memᴰ.tail (r j)

pick-Within :
    (before : Candidate → Candidate → Bool) (c : Candidate) (cs : List Candidate)
    → Within ((pick before c cs).0 ∷ (pick before c cs).1) (c ∷ cs)
unfolding pick
pick-Within before c [] x i = i
pick-Within before c (d ∷ ds) x i = elim (Bool-cases (before (pick before d ds).0 c)) [
  | inl e ↦ swapped (pick-Within before d ds x) (rw e at i)
  | inr e ↦ rw e at i
]
  where
    swapped :
        (Memᴰ x ((pick before d ds).0 ∷ (pick before d ds).1) → Memᴰ x (d ∷ ds))
        → Memᴰ x ((pick before d ds).0 ∷ c ∷ (pick before d ds).1)
        → Memᴰ x (c ∷ d ∷ ds)
    swapped r (Memᴰ.head q) = Memᴰ.tail (r (Memᴰ.head q))
    swapped r (Memᴰ.tail (Memᴰ.head q)) = Memᴰ.head q
    swapped r (Memᴰ.tail (Memᴰ.tail j)) = Memᴰ.tail (r (Memᴰ.tail j))

append-cases : (c : Candidate) (xs ys : List Candidate) → Memᴰ c (xs ++ ys) → Memᴰ c xs ⊎ Memᴰ c ys
append-cases c [] ys i = inr i
append-cases c (x ∷ xs) ys (Memᴰ.head q) = inl (Memᴰ.head q)
append-cases c (x ∷ xs) ys (Memᴰ.tail i) = elim (append-cases c xs ys i) [
  | inl j ↦ inl (Memᴰ.tail j)
  | inr j ↦ inr j
]

pick_next-Within :
    (wanted : Bool) (before : Candidate → Candidate → Bool) (cs : List Candidate)
    → Within (pick_next wanted before cs).0 cs × Within (pick_next wanted before cs).1 cs
unfolding pick_next
pick_next-Within wanted before [] = ((λ x i. i), (λ x i. i))
pick_next-Within true before (c ∷ cs) = (
  (λ x i. pick-Within before c cs x (only x i)),
  (λ x i. pick-Within before c cs x (Memᴰ.tail i)),
)
  where
    only :
        (x : Candidate)
        → Memᴰ x ((pick before c cs).0 ∷ [])
        → Memᴰ x ((pick before c cs).0 ∷ (pick before c cs).1)
    only x (Memᴰ.head q) = Memᴰ.head q
    only x (Memᴰ.tail i) = elim i [ ]
pick_next-Within false before (c ∷ cs) = ((λ x i. elim i [ ]), (λ x i. i))

first_n-Within : (n : ℕ) (cs : List Candidate) → Within (first_n n cs) cs
unfolding first_n
first_n-Within (zero) cs x i = elim i [ ]
first_n-Within (suc n) [] x i = i
first_n-Within (suc n) (c ∷ cs) x (Memᴰ.head q) = Memᴰ.head q
first_n-Within (suc n) (c ∷ cs) x (Memᴰ.tail i) = Memᴰ.tail (first_n-Within n cs x i)

length-first_n : (n : ℕ) (cs : List Candidate) → length (first_n n cs) ≤ n
unfolding first_n
length-first_n (zero) cs = omega arith
length-first_n (suc n) [] = omega arith
length-first_n (suc n) (c ∷ cs) = omega (arith, length-first_n n cs)

line_up-Within :
    (orders : Orders) (most tier : ℕ) (anchor : Candidate) (remaining : List Candidate)
    → Within (line_up orders most tier anchor remaining) (anchor ∷ remaining)
unfolding line_up
line_up-Within orders most tier anchor remaining x (Memᴰ.head q) = Memᴰ.head q
line_up-Within orders most tier anchor remaining x (Memᴰ.tail i) =
    let reviewer = pick_next (leb 2 most) (orders.by_diversity anchor) remaining in
    let r = pick_next-Within (leb 2 most) (orders.by_diversity anchor) remaining in
    let critic = pick_next (leb 3 most) orders.by_quality reviewer.1 in
    let c = pick_next-Within (leb 3 most) orders.by_quality reviewer.1 in
    let sanity = pick_next (leb 4 most && tier == 3) orders.by_latency critic.1 in
    let s = pick_next-Within (leb 4 most && tier == 3) orders.by_latency critic.1 in
    Memᴰ.tail (elim (append-cases x reviewer.0 (critic.0 ++ sanity.0) i) [
      | inl j ↦ r.0 x j
      | inr j ↦ elim (append-cases x critic.0 sanity.0 j) [
        | inl k ↦ r.1 x (c.0 x k)
        | inr k ↦ r.1 x (c.1 x (s.0 x k))
      ]
    ])

-- The proposers are among those that were scored, and at most as many as asked for.
pub select_proposer_candidates-Within :
    (orders : Orders) (scored : List Candidate) (most tier : ℕ)
    → Within (select_proposer_candidates orders scored most tier) scored
      × (length (select_proposer_candidates orders scored most tier) ≤ most)
unfolding select_proposer_candidates
select_proposer_candidates-Within orders scored most tier = elim (Bool-cases (most == 0)) [
  | inl e ↦ rw e ((λ x i. elim i [ ]), omega arith)
  | inr e ↦
      rw e
        (go (sorted orders.by_quality_score scored) (sorted-Within orders.by_quality_score scored))
]
  where
    chosen : List Candidate → List Candidate
    chosen cs = elim cs [
      | [] ↦ []
      | anchor ∷ remaining ↦ first_n most (line_up orders most tier anchor remaining)
    ]

    go :
        (cs : List Candidate)
        → Within cs scored
        → Within (chosen cs) scored × (length (chosen cs) ≤ most)
    go [] w = ((λ x i. elim i [ ]), omega arith)
    go (anchor ∷ remaining) w = (
      (λ x i. w x (line_up-Within orders most tier anchor remaining x (first_n-Within most _ x i))),
      length-first_n most (line_up orders most tier anchor remaining),
    )
