-- ===== src/Agent/UciTransaction/Atomic.antt =====
-- `execute` is all or nothing, option by option.
use mu5250_open_ui.Base.{
  ℕ, ◌≡◌, ap, Bool, true, false, Option, none, List, [], String, arith, Option-cases, inl, inr,
}
use mu5250_open_ui.Base.Results.{Result, ok, err}
use mu5250_open_ui.Agent.UciTransaction.{
  Change, Backend, Error, refused, restored, needs_attention, configs, set_all, commit_all,
  reset_all, recommit_all, restore, reload, settle, committed, staged_then, checked, execute,
}
use mu5250_open_ui.Agent.UciTransaction.Staging.{
  IsUci, or_else, assigned, assigned-elem, live-set_all, staged-set_all, live-commit_all,
}

-- The error does not ask for attention.
abbrev pub leaves_no_trace : Error → Bool
leaves_no_trace (refused e) = true
leaves_no_trace (restored e) = true
leaves_no_trace (needs_attention e errors) = false

abbrev error_text : Result String (Unit {0}) → String
error_text (ok u) = ""
error_text (err e) = e

module _ {W : Type 0} (b : Backend W) (cs : List Change) (w : W) where
  -- The worlds after the staging, the commits and the reload, and the restoration's steps.
  abbrev staged_at : W
  staged_at = (set_all b cs w).1

  abbrev reloaded_at : W
  reloaded_at = (reload b (commit_all b (configs cs) staged_at)).1

  abbrev reset_at : W
  reset_at = (reset_all b cs reloaded_at).1

  abbrev recommitted_at : W
  recommitted_at = (recommit_all b (configs cs) reset_at).1

  record IsDone : Type 0 where
    all_set : (set_all b cs w).0 ≡ ok tt
    all_committed : (commit_all b (configs cs) staged_at).0 ≡ ok tt
    ends : (execute b cs w).1 ≡ (b.apply (commit_all b (configs cs) staged_at).1).1

  success_done : (execute b cs w).0 ≡ ok tt → IsDone
  unfolding execute checked staged_then committed settle reload restore
  success_done h = record {
    all_set = ground arith;
    all_committed = ground arith;
    ends = ground arith;
  }

  record IsUndone : Type 0 where
    all_set : (set_all b cs w).0 ≡ ok tt
    was_checked : b.check cs w ≡ ok tt
    all_reset : (reset_all b cs reloaded_at).0 ≡ []
    all_recommitted : (recommit_all b (configs cs) reset_at).0 ≡ []
    ends : (execute b cs w).1 ≡ (b.apply recommitted_at).1

  module _ (live staged : W → List ℕ → Option (List ℕ)) (u : IsUci b live staged) (j : List ℕ) where
    -- Where UCI does what it documents: a transaction that succeeds gives an option with nothing
    -- staged at the start the last value that the changes have for it, or leaves it as it was if
    -- they have none.
    pub execute_success :
        staged w j ≡ none
        → (execute b cs w).0 ≡ ok tt
        → live (execute b cs w).1 j ≡ or_else (assigned (λ c. c.after) cs j) (live w j)
    execute_success fresh h =
        let d = success_done h in
        let s = staged-set_all b live staged u j cs w d.all_set in
        let l = live-set_all b live staged u j cs w in
        let c = live-commit_all b live staged u j (configs cs) staged_at d.all_committed in
        let a = u.live-apply (commit_all b (configs cs) staged_at).1 j in
        let ends = ap (λ v. live v j) d.ends in
        elim (Option-cases (assigned (λ c. c.after) cs j)) [
          | inl n ↦ ground (arith, fresh, s, l, c, a, ends, n)
          | inr (v, n) ↦ ground (arith, s, l, c, a, ends, n, assigned-elem (λ c. c.after) cs j n)
        ]
