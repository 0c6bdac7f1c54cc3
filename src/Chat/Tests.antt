-- ===== src/Chat/Tests.antt =====
-- Runs of the chat over tables queried in order.
use backend_bmo_blabs.Base.{
  ◌≤◌, ◌<◌, ◌≡◌, refl, true, false, none, List, [], ◌∷◌, ok, length, arith, ◌==◌,
}
use backend_bmo_blabs.Base.Picking.{any}
use backend_bmo_blabs.Database.{list_database, list_find, count}
use backend_bmo_blabs.Chat.Rows.{OperationStatus, Tables}
use backend_bmo_blabs.Chat.Title.{generate_heuristic_title}
use backend_bmo_blabs.Chat.Title.Bounds.{title_bounds}
use backend_bmo_blabs.Chat.Lease.{
  Services, ChatJob, Fresh, is_next, has_prior, is_free, lease_ttl_ms, claim, renew_lease, is_held,
  release_lease, record_failure, reply, store_reply, find_session, complete,
}
use backend_bmo_blabs.Chat.Queue.{new_queue, reserve}
use backend_bmo_blabs.Chat.Sessions.{
  Chat, settle, submit_new, submit_message, ChatMessageInput, FreshMessage, AcceptedMessage,
  find_operation, existing_response, create_session, delete_rows, delete_session, is_of_session,
  owns_device, same_device, answer, user_message, new_operation, is_taken, store_message, repeated,
  accept_message,
}
use backend_bmo_blabs.Chat.Calls.{Call, step, run}
use backend_bmo_blabs.Chat.Reply.{IsAnsweredOnce, run-IsAnsweredOnce}
use backend_bmo_blabs.Chat.Fence.{claimed_fences}
use backend_bmo_blabs.Chat.Deleted.{is_in_session, deleted_stays_silent}
use backend_bmo_blabs.Chat.Again.{sent_again}

abbrev services : Services
services = record { db = list_database; hard_timeout_ms = 60_000 }

abbrev empty_tables : Tables
empty_tables = record { sessions = []; messages = []; operations = []; devices = []; audit = [] }

abbrev hello : ChatMessageInput
hello = record { idempotency_key = 5; text = b'h' ∷ b'i' ∷ []; speak = false; device_id = none }

abbrev rows : FreshMessage
rows = record {
  message = record { id = 20; cursor = 1; created_at = 10 };
  operation_id = 30;
  started_at = 10;
}

abbrev again_rows : FreshMessage
again_rows = record {
  message = record { id = 21; cursor = 2; created_at = 90 };
  operation_id = 31;
  started_at = 90;
}

abbrev job : ChatJob
job = record { user_id = 7; session_id = 1; user_message_id = 20; operation_id = 30 }

abbrev reply_row : Fresh
reply_row = record { id = 40; cursor = 3; created_at = 50 }

-- User 7 opens session 1, sends a message, and worker 100 answers it.
abbrev sent : List Call
sent = Call.creates 7 false 1 ∷ Call.accepts 7 1 hello rows ∷ []

abbrev answered : List Call
answered = Call.claims job 100 11 ∷ Call.completes job 100 (b'o' ∷ b'k' ∷ []) reply_row 51 ∷ []

empty-IsAnsweredOnce : IsAnsweredOnce empty_tables
empty-IsAnsweredOnce = record { one = λ id. omega arith; whole = λ id. omega arith }

run-IsAnsweredOnce_example : IsAnsweredOnce (run services empty_tables sent)
run-IsAnsweredOnce_example = run-IsAnsweredOnce services empty_tables sent empty-IsAnsweredOnce

-- The second worker claims after the time of the first lease.
abbrev stale : Tables
stale =
    run services empty_tables
      (Call.creates 7 false 1 ∷ Call.accepts 7 1 hello rows ∷ Call.claims job 100 11 ∷ [])

late_write : (claim services job 200 100_000 stale).1 ≡ true
unfolding run step create_session accept_message repeated find_operation find_session owns_device
    is_taken store_message user_message new_operation answer claim is_next has_prior is_free
    lease_ttl_ms delete_session delete_rows is_of_session complete is_held store_reply reply any
    list_find generate_heuristic_title same_device existing_response
late_write = refl

claimed_fences_example :
    let t =
      run services (claim services job 200 100_000 stale).0 (Call.renews job 200 100_001 ∷ []) in
    (complete services job 100 (b'o' ∷ []) reply_row 100_002 t ≡ (t, none))
    × (record_failure services job 100 100_002 t ≡ t)
    × (renew_lease services job 100 100_002 t ≡ (t, false))
    × (release_lease services job 100 100_002 t ≡ t)
claimed_fences_example =
    claimed_fences services job job 100 200 100_000 stale
      (run-IsAnsweredOnce services empty_tables
        (Call.creates 7 false 1 ∷ Call.accepts 7 1 hello rows ∷ Call.claims job 100 11 ∷ [])
        empty-IsAnsweredOnce)
      refl (λ e. absurd (omega arith)) late_write (Call.renews job 200 100_001 ∷ []) (refl, tt)
      (b'o' ∷ []) reply_row 100_002

-- Both messages are there once the worker has answered.
two_messages :
    count (is_in_session 1) (run services (run services empty_tables sent) answered).messages ≡ 2
unfolding run step create_session accept_message repeated find_operation find_session owns_device
    is_taken store_message user_message new_operation answer claim is_next has_prior is_free
    lease_ttl_ms delete_session delete_rows is_of_session complete is_held store_reply reply any
    list_find generate_heuristic_title same_device existing_response
two_messages = refl

deletes : (delete_session services 7 1 60 (run services empty_tables sent)).1 ≡ ok true
unfolding run step create_session accept_message repeated find_operation find_session owns_device
    is_taken store_message user_message new_operation answer claim is_next has_prior is_free
    lease_ttl_ms delete_session delete_rows is_of_session complete is_held store_reply reply any
    list_find generate_heuristic_title same_device existing_response
deletes = refl

one_session : count (λ q. q.id == 1) (run services empty_tables sent).sessions ≤ 1
unfolding run step create_session accept_message repeated find_operation find_session owns_device
    is_taken store_message user_message new_operation answer claim is_next has_prior is_free
    lease_ttl_ms delete_session delete_rows is_of_session complete is_held store_reply reply any
    list_find generate_heuristic_title same_device existing_response
one_session = omega arith

deleted_stays_silent_example :
    count
      (is_in_session 1)
      (run services
        (delete_session services 7 1 60 (run services empty_tables sent)).0
        answered).messages
    ≡ count (is_in_session 1) (run services empty_tables sent).messages
deleted_stays_silent_example =
    deleted_stays_silent services 7 1 60 (run services empty_tables sent) one_session deletes
      answered

abbrev opened : Tables
opened = run services empty_tables (Call.creates 7 false 1 ∷ [])

abbrev accepted : AcceptedMessage
accepted = record {
  user_message_id = 20;
  text = b'h' ∷ b'i' ∷ [];
  created_at = 10;
  status = OperationStatus.processing;
  operation_id = 30;
  error_code = none;
}

accepts : (accept_message services 7 1 hello rows opened).1 ≡ ok (accepted, true)
unfolding run step create_session accept_message repeated find_operation find_session owns_device
    is_taken store_message user_message new_operation answer claim is_next has_prior is_free
    lease_ttl_ms delete_session delete_rows is_of_session complete is_held store_reply reply any
    list_find generate_heuristic_title same_device existing_response
accepts = refl

no_operation : find_operation services 7 hello.idempotency_key opened ≡ none
unfolding run step create_session find_operation list_find
no_operation = refl

abbrev chat : Chat
chat = record { tables = opened; queue = new_queue 2 64 }

submits : (submit_message services 7 1 9 hello rows (λ t. t) chat).1 ≡ ok accepted
unfolding submit_message submit_new settle reserve new_queue run step create_session accept_message
    repeated find_operation find_session owns_device is_taken store_message user_message
    new_operation answer list_find generate_heuristic_title same_device existing_response
submits = refl

sent_again_example :
    let t =
      run services (submit_message services 7 1 9 hello rows (λ t. t) chat).0.tables answered in
    let c : Chat = record { tables = t; queue = new_queue 2 64 } in
    (b : AcceptedMessage) × (submit_message services 7 1 9 hello again_rows (λ t. t) c ≡ (c, ok b))
    × (accept_message services 7 1 hello again_rows t ≡ (t, ok (b, false)))
    × (b.operation_id ≡ accepted.operation_id)
    × (b.user_message_id ≡ accepted.user_message_id)
sent_again_example =
    sent_again services 7 1 9 hello rows (λ t. t) chat accepted no_operation no_operation submits
      answered (refl, (refl, tt)) again_rows (λ t. t) (new_queue 2 64)

title_bounds_example :
    (0 < length (generate_heuristic_title (b'h' ∷ b'i' ∷ [])))
    × (length (generate_heuristic_title (b'h' ∷ b'i' ∷ [])) ≤ 40)
title_bounds_example = title_bounds (b'h' ∷ b'i' ∷ [])
