-- ===== src/Runtime/Recovery/Runs.antt =====
-- The loop of `recover_stale_runs` in sidecar/ibreeze/runtime/recovery.py recovers each stale run.
use i_breeze.Prelude.{
  ℕ, suc, ◌+◌, ==_iff, String, str_eq, eq_iff, true, false, ◌≡◌, refl, sym, ap, ◌∙◌, List, [], ◌∷◌,
  ◌++◌, map, keep_if, length, keep_if-kept, keep_if-left, if◌then◌else◌, Memᴰ, Bool-cases, inl, inr,
  arith,
}
use mathlib.Core.List.{append_assoc}
use i_breeze.Rows.{NoneMatch, update_where-one, count_where-one, NoneMatch-append}
use i_breeze.Runtime.Stamp.{Stamp}
use i_breeze.Runtime.Recovery.{
  AgentRunRow, RunTables, is_stale, same_run, failed_row, release_run, recover_run, recover_each,
}

-- The ids of the runs are distinct, as those of a primary key are.
abbrev pub HasKey : List AgentRunRow → Type 0
HasKey [] = Unit {0}
HasKey (r ∷ rows) = NoneMatch (λ x. str_eq x.id r.id) rows × HasKey rows

-- A stale run is failed, and any other run is as it was.
abbrev pub recovered : Stamp → AgentRunRow → AgentRunRow
recovered now row = if is_stale row then failed_row now row.status row else row

-- The runs `rows` are not among `front`.
abbrev pub Apart : List AgentRunRow → List AgentRunRow → Type 0
Apart front rows = (y : AgentRunRow) → Memᴰ y rows → NoneMatch (λ x. str_eq x.id y.id) front

abbrev pub with_runs : List AgentRunRow → RunTables → RunTables
with_runs rows db = record db { agent_runs = rows }

unfoldable pub release_each : List AgentRunRow → RunTables → RunTables
release_each [] db = db
release_each (run ∷ runs) db = release_each runs (release_run run db)

same_run_self : (r : AgentRunRow) → same_run r r ≡ true
same_run_self r =
    rw
      (
        (eq_iff r.id r.id).1 refl,
        (eq_iff r.company_id r.company_id).1 refl,
        (eq_iff r.status r.status).1 refl,
        (==_iff r.version r.version).1 refl,
      )
      refl

other_run : (r x : AgentRunRow) → str_eq x.id r.id ≡ false → same_run r x ≡ false
other_run r x e = rw e refl

-- One stale run in the middle of the table is failed, and released.
recover_run-one :
    (now : Stamp) (front : List AgentRunRow) (r : AgentRunRow) (rows : List AgentRunRow)
    (db : RunTables)
    → NoneMatch (λ x. str_eq x.id r.id) front
    → NoneMatch (λ x. str_eq x.id r.id) rows
    → recover_run now r (with_runs (front ++ (r ∷ rows)) db)
      ≡ (with_runs (front ++ (failed_row now r.status r ∷ rows)) (release_run r db), 1)
unfolding recover_run
recover_run-one now front r rows db h k =
    rw
      (
        update_where-one (same_run r) (failed_row now r.status) front r rows
            (λ x i. other_run r x (h x i)) (same_run_self r) (λ x i. other_run r x (k x i)),
        count_where-one (same_run r) front r rows (λ x i. other_run r x (h x i)) (same_run_self r)
            (λ x i. other_run r x (k x i)),
      )
      refl

pub recover_each-rows :
    (now : Stamp) (front rows : List AgentRunRow) (db : RunTables)
    → HasKey rows
    → Apart front rows
    → recover_each now (keep_if is_stale rows) (with_runs (front ++ rows) db) ≡ (
      with_runs (front ++ map (recovered now) rows) (release_each (keep_if is_stale rows) db),
      length (keep_if is_stale rows),
    )
unfolding recover_each release_each
recover_each-rows now front [] db k a = refl
recover_each-rows now front (r ∷ rows) db k a = elim (Bool-cases (is_stale r)) [
  | inl s ↦
      rw
        (
          keep_if-kept is_stale r rows s,
          recover_run-one now front r rows db (a r (Memᴰ.head refl)) k.0,
          s,
        )
        (ap
            (λ l.
              counted (recover_each now (keep_if is_stale rows) (with_runs l (release_run r db))))
            (sym (append_assoc front (failed_row now r.status r ∷ []) rows))
          ∙ ap counted (
              recover_each-rows now (front ++ (failed_row now r.status r ∷ [])) rows
                (release_run r db) k.1 (apart_next (failed_row now r.status r) refl))
          ∙ ap
              (λ n. (
                with_runs ((front ++ (failed_row now r.status r ∷ [])) ++ map (recovered now) rows)
                    (release_each (keep_if is_stale rows) (release_run r db)),
                n,
              ))
              (one_more (length (keep_if is_stale rows)))
          ∙ ap
              (λ l. (
                with_runs l (release_each (keep_if is_stale rows) (release_run r db)),
                suc (length (keep_if is_stale rows)),
              ))
              (append_assoc front (failed_row now r.status r ∷ []) (map (recovered now) rows)))
  | inr s ↦
      rw (keep_if-left is_stale r rows s, s)
        (ap (λ l. recover_each now (keep_if is_stale rows) (with_runs l db))
            (sym (append_assoc front (r ∷ []) rows))
          ∙ recover_each-rows now (front ++ (r ∷ [])) rows db k.1 (apart_next r refl)
          ∙ ap
              (λ l. (
                with_runs l (release_each (keep_if is_stale rows) db),
                length (keep_if is_stale rows),
              ))
              (append_assoc front (r ∷ []) (map (recovered now) rows)))
]
  where
    counted : RunTables × ℕ → RunTables × ℕ
    counted q = (q.0, 1 + q.1)

    one_more : (n : ℕ) → 1 + n ≡ suc n
    one_more n = omega arith

    swapped : (x y : String) → str_eq y x ≡ false → str_eq x y ≡ false
    swapped x y h = ground (arith, eq_iff x y, eq_iff y x)

    apart_next : (r' : AgentRunRow) → r'.id ≡ r.id → Apart (front ++ (r' ∷ [])) rows
    apart_next r' e y i =
        NoneMatch-append (λ x. str_eq x.id y.id) front r' (a y (Memᴰ.tail i))
          (rw e (swapped r.id y.id (k.0 y i)))
