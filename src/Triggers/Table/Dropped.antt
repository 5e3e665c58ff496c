-- ===== src/Triggers/Table/Dropped.antt =====
-- What the triggers of a batch report (dpp/src/data_trigger/mod.rs).
use rs_platform.Common.{◌≡◌, subst, List, [], ◌∷◌, ◌++◌, Bytes, All, ok, err, >>=-eq-ok, ok_inj}
use rs_platform.Triggers.{
  Transition, base_of, failed, panicked, Run, TriggerError, condition_error, execution_error, Json,
  Context,
}
use rs_platform.Triggers.Table.{
  DataTrigger, SystemIds, get_data_triggers, report_failure, execute,
  execute_data_triggers_sequentially, execute_data_triggers,
}

-- A report of a failure, and of nothing else.
abbrev pub IsExecutionError : TriggerError → Type 0
IsExecutionError (execution_error contract id reason) = Unit
IsExecutionError (condition_error contract id condition) = ⊥

module _ {J : Type 0} (json : Json J) (context : Context J) (hash : Bytes → Bytes)
    (owner_base58 : Bytes) where
  report_failure-IsExecutionError :
      (id : Bytes) (run : Run (List TriggerError)) {errors : List TriggerError}
      → report_failure json context hash owner_base58 id run ≡ ok errors
      → All IsExecutionError errors
  report_failure-IsExecutionError id (ok found) h =
      let same = ok_inj h in
      subst (λ (errors : List TriggerError). All IsExecutionError errors) same tt
  report_failure-IsExecutionError id (err (failed reason)) h =
      let same = ok_inj h in
      subst (λ (errors : List TriggerError). All IsExecutionError errors) same (tt, tt)
  report_failure-IsExecutionError id (err panicked) h = cc

  sequence-IsExecutionError :
      (triggers : List DataTrigger) (transition : Transition J) {results : List (List TriggerError)}
      → execute_data_triggers_sequentially json context hash owner_base58 triggers transition
        ≡ ok results
      → All (All IsExecutionError) results
  unfolding execute_data_triggers_sequentially execute
  sequence-IsExecutionError [] transition h =
      let same = ok_inj h in
      subst (λ (rs : List (List TriggerError)). All (All IsExecutionError) rs) same tt
  sequence-IsExecutionError (trigger ∷ triggers) transition h =
      let here = >>=-eq-ok (execute json context hash owner_base58 trigger transition) _ h in
      let rest =
        >>=-eq-ok
          (execute_data_triggers_sequentially json context hash owner_base58 triggers transition) _
          here.2 in
      let same = ok_inj rest.2 in
      subst (λ (rs : List (List TriggerError)). All (All IsExecutionError) rs) same
        (
          report_failure-IsExecutionError (base_of transition).id _ here.1,
          sequence-IsExecutionError triggers transition rest.1,
        )

  All-append :
      (P : List TriggerError → Type 0) (xs ys : List (List TriggerError))
      → All P xs
      → All P ys
      → All P (xs ++ ys)
  All-append P [] ys px py = py
  All-append P (x ∷ xs) ys px py = (px.0, All-append P xs ys px.1 py)

  -- The results of the data triggers of a batch hold no condition error, whatever the transitions:
  -- only failures of the triggers are reported, and what a trigger found is dropped.
  pub execute_data_triggers-IsExecutionError :
      (ids : SystemIds) (transitions : List (Transition J)) {results : List (List TriggerError)}
      → execute_data_triggers json context hash owner_base58 ids transitions ≡ ok results
      → All (All IsExecutionError) results
  unfolding execute_data_triggers
  execute_data_triggers-IsExecutionError ids [] h =
      let same = ok_inj h in
      subst (λ (rs : List (List TriggerError)). All (All IsExecutionError) rs) same tt
  execute_data_triggers-IsExecutionError ids (transition ∷ transitions) h =
      let triggers =
        get_data_triggers ids context.data_contract_id (base_of transition).document_type
          (base_of transition).action in
      let here =
        >>=-eq-ok
          (execute_data_triggers_sequentially json context hash owner_base58 triggers transition) _
          h in
      let rest =
        >>=-eq-ok (execute_data_triggers json context hash owner_base58 ids transitions) _ here.2 in
      let same = ok_inj rest.2 in
      subst (λ (rs : List (List TriggerError)). All (All IsExecutionError) rs) same
        (All-append (All IsExecutionError) here.0 rest.0
          (sequence-IsExecutionError triggers transition here.1)
          (execute_data_triggers-IsExecutionError ids transitions rest.1))
