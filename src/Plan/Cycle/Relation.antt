-- ===== src/Plan/Cycle/Relation.antt =====
-- The dependency relation of a plan's graph, and its cycles.
use mathlib.Core.WellFounded.{Acc}
use i_breeze.Prelude.{◌⊎◌, inl, inr, refl, sym, subst, String, ◌≡◌, true, contains, is_in}
use i_breeze.Plan.Graph.{Graph, successors}

-- `b` is a task of the plan on which the task `a` depends.
pub record Edge (g : Graph) (a b : String) : Type 0 where
  pub listed : contains b (successors g a) ≡ true
  pub known : is_in b g ≡ true

-- One dependency after another leads from `a` to `b`.
pub data Leads (g : Graph) : String → String → Type 0 where
  one : {a b : String} → Edge g a b → Leads g a b
  more : {a b c : String} → Leads g a b → Edge g b c → Leads g a c

-- Every chain of dependencies from `a` ends.
abbrev pub Grounded : Graph → String → Type 0
Grounded g a = Acc (λ d n. Edge g n d) a

pub Leads-trans : {g : Graph} {a b c : String} → Leads g a b → Leads g b c → Leads g a c
Leads-trans p (one e) = more p e
Leads-trans p (more q e) = more (Leads-trans p q) e

-- The first step of a chain.
pub record First (g : Graph) (a c : String) : Type 0 where
  pub next : String
  pub step : Edge g a next
  pub rest : (next ≡ c) ⊎ Leads g next c

pub begin_walk : {g : Graph} {a c : String} → Leads g a c → First g a c
begin_walk (one e) = record { next = _; step = e; rest = inl refl }
begin_walk {g} (more {a = a} {b = b} {c = c} p e) =
    let f = begin_walk p in
    record {
      next = f.next;
      step = f.step;
      rest =
          inr (elim f.rest [ inl q ↦ one (subst (λ x. Edge g x c) (sym q) e) | inr r ↦ more r e ]);
    }

-- A grounded node lies on no cycle.
pub Grounded-no_cycle : {g : Graph} (a : String) → Grounded g a → ¬ Leads g a a
Grounded-no_cycle {g} a (Acc.intro _ below) p =
    let f = begin_walk p in
    Grounded-no_cycle f.next (below f.next f.step)
      (elim f.rest [ inl q ↦ subst (λ x. Leads g x x) (sym q) p | inr r ↦ more r f.step ])
