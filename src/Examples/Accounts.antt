-- ===== src/Examples/Accounts.antt =====
-- Concrete runs of the account domain.
use agent_craft.Prelude.{
  ℕ, ◌+◌, ◌≤◌, ◌≡◌, refl, false, none, some, List, [], ◌∷◌, All, arith, inr, ◌<◌, ◌⊎◌,
}
use agent_craft.Accounts.Rows.{UserStatus, Scope}
use agent_craft.Accounts.Service.{raised, after}
use agent_craft.Accounts.RateLimit.{hits, recent}
use agent_craft.Accounts.RateLimit.Log.{answers, log_answers, answers-log}
use agent_craft.Accounts.RateLimit.Bounds.{window_limit, after_calls, occurrences}
use agent_craft.Accounts.Idempotency.{begin, store, conflict}
use agent_craft.Accounts.Idempotency.Replay.{
  stored_conflict, RecordCall, begin_call, store_call, record_calls,
}
use agent_craft.Accounts.Outbox.{is_pending}
use agent_craft.Accounts.Outbox.Drain.{run_rounds, rounds_drain}
use agent_craft.Accounts.Sessions.{
  get_v2_auth, resolve_session, revoke_all, session_absolute, refresh_if_needed,
}
use agent_craft.Accounts.Sessions.Lifetimes.{refresh}
use agent_craft.Accounts.Sessions.Admission.{LetIn, IsSafe, ShowsToken}
use agent_craft.Accounts.Sessions.Gates.{auth_gates, resolved_young}
use agent_craft.Accounts.Tokens.{consume_token}
use agent_craft.Accounts.Users.{update_user}
use agent_craft.Accounts.Verification.{confirm_email, confirm_fresh, confirm_tx}
use agent_craft.Accounts.Passwords.{confirm_reset, reset_fresh, reset_tx}
use agent_craft.Accounts.Changes.{Consistent}
use agent_craft.Accounts.Actions.{serve_account, serve_accounts, confirm, reset}
use agent_craft.Accounts.Actions.Status.{Follows, serve_accounts-Follows, serve_accounts-Consistent}
use agent_craft.Accounts.Idempotency.Nothing.{DoesNothing}
use agent_craft.Accounts.Actions.Final.{revoke_all_final, used_link_confirms, used_link_resets}
use agent_craft.Examples.AccountData.{
  primitives, member, session_3, accounts, no_hook, idem_1, logins, rounds, write_request, ticket_1,
  ticket_2, answer_1, confirmed_world, reset_world, stored_world,
}

answers-log_example : answers logins accounts ≡ log_answers logins []
answers-log_example =
    answers-log logins accounts [] 0 (omega arith, (omega arith, (omega arith, tt)))
      (λ s t le. refl)

subjects_once : (h : ℕ) → occurrences h (1 ∷ 2 ∷ []) ≤ 1
subjects_once h = ground arith

window_limit_example : hits 1 (recent Scope.login 1000 (after_calls logins accounts).db.events) ≤ 10
window_limit_example =
    window_limit logins accounts 0 Scope.login 1 1000
      (omega arith, (omega arith, (omega arith, tt)))
      (subjects_once, (subjects_once, (subjects_once, tt))) (λ s h t le. omega arith) (omega arith)

rounds_drain_example : All (λ m. is_pending m ≡ false) (run_rounds 10 rounds accounts).db.outbox
rounds_drain_example =
    rounds_drain 10 10000 rounds accounts refl (omega arith) (omega arith)
      (
        λ row. omega arith,
        (λ row. omega arith, (λ row. omega arith, (λ row. omega arith, (λ row. omega arith, tt)))),
      )
      (inr (refl, omega arith, omega arith, refl), tt)

revoke_all_final_example :
    resolve_session primitives.hash_token
      (some 70)
      100
      (serve_accounts primitives no_hook
        (confirm 50 idem_1 20 ∷ [])
        (after (revoke_all 2 10 accounts))).db
    ≡ none
revoke_all_final_example =
    revoke_all_final primitives no_hook (λ id w. refl) 2 10 100 70 (confirm 50 idem_1 20 ∷ [])
      accounts refl ((λ e. refl), tt)

auth_gates_example :
    LetIn primitives.hash_token write_request 100 accounts.db.sessions session_3
      (member 2 UserStatus.active)
    × (IsSafe write_request.method ⊎ ShowsToken primitives.hash_token write_request session_3)
    × ((UserStatus.active ≡ UserStatus.pending) ⊎ (UserStatus.active ≡ UserStatus.active))
unfolding get_v2_auth resolve_session
auth_gates_example =
    auth_gates primitives.hash_token write_request 100 (session_3, member 2 UserStatus.active)
      accounts accounts refl

resolved_young_example : 100 < 0 + session_absolute
unfolding resolve_session refresh_if_needed
resolved_young_example =
    resolved_young primitives.hash_token (refresh 2 3 50 ∷ []) accounts 70 100 session_3
      (member 2 UserStatus.active) (omega arith, tt) refl

serve_accounts-Follows_example :
    Follows accounts.db.users
      (serve_accounts primitives no_hook (confirm 50 idem_1 20 ∷ []) accounts).db.users
serve_accounts-Follows_example =
    serve_accounts-Follows primitives no_hook (confirm 50 idem_1 20 ∷ []) accounts (λ id w. refl)

serve_accounts-Consistent_example :
    All Consistent (serve_accounts primitives no_hook (confirm 50 idem_1 20 ∷ []) accounts).db.users
serve_accounts-Consistent_example =
    serve_accounts-Consistent primitives no_hook (confirm 50 idem_1 20 ∷ []) accounts (λ id w. refl)
      ((refl, refl), ((refl, refl), tt))

-- Other requests, in the day after.
abbrev between : List RecordCall
between =
    begin_call ticket_2 30
    ∷ store_call ticket_2 answer_1 40
    ∷ begin_call ticket_2 60
    ∷ store_call ticket_1 answer_1 70
    ∷ []

stored_conflict_example :
    begin (record ticket_1 { request_hash = 13 }) 90 (record_calls between stored_world)
    ≡ raised conflict (record_calls between stored_world)
unfolding store
stored_conflict_example =
    stored_conflict ticket_1 answer_1 20 90 accounts stored_world between
      (record_calls between stored_world) refl
      (omega arith, (omega arith, (omega arith, (omega arith, tt)))) (omega arith) refl 13 refl

used_link_confirms_example :
    DoesNothing (serve_accounts primitives no_hook (confirm 50 idem_1 20 ∷ []) confirmed_world) (
      confirm_email primitives 50 idem_1 90
        (serve_accounts primitives no_hook (confirm 50 idem_1 20 ∷ []) confirmed_world))
unfolding confirm_email confirm_fresh confirm_tx begin store update_user consume_token serve_account
used_link_confirms_example =
    used_link_confirms primitives 50 no_hook (λ id w. refl) (confirm 50 idem_1 20 ∷ []) idem_1 90
      confirmed_world (refl, ((λ e. refl), ((λ e. absurd (cc e)), tt)))

used_link_resets_example :
    DoesNothing (serve_accounts primitives no_hook (reset 60 901 idem_1 40 ∷ []) reset_world) (
      confirm_reset primitives 60 902 idem_1 90
        (serve_accounts primitives no_hook (reset 60 901 idem_1 40 ∷ []) reset_world))
unfolding confirm_reset reset_fresh reset_tx begin store update_user consume_token revoke_all
    serve_account
used_link_resets_example =
    used_link_resets primitives 60 no_hook (λ id w. refl) (reset 60 901 idem_1 40 ∷ []) 902 idem_1
      90 reset_world (refl, ((λ e. absurd (cc e)), ((λ e. refl), tt)))
