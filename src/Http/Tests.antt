-- ===== src/Http/Tests.antt =====
-- Requests to a server over a small store, and the theorems at them.
use enterprise_workflow_plat.Common.{
  List, [], ◌∷◌, some, none, ◌≡◌, ◌⊎◌, ◌==◌, refl, ap, arith, ok, eq_iff, sym, ◌∙◌, contains,
  if◌then◌else◌,
}
use enterprise_workflow_plat.Common.Texts.{
  is_space, trim_quotes, fields, scan_words, equal_fold, drop_quotes, drop_quotes_right,
}
use enterprise_workflow_plat.Common.Int64.{
  inc64, format_06, parse_int, parse_digits, parse_magnitude, in_range,
}
use enterprise_workflow_plat.Common.Map.{Map, lookup, insert}
use enterprise_workflow_plat.Domain.{zero_record, zero_workflow}
use enterprise_workflow_plat.Auth.{Claims, parse, bearer, bearer_of}
use enterprise_workflow_plat.Store.Memory.{
  MemoryStore, Clock, new_memory_store, make_id, next_id, is_empty_list, create_workflow,
  append_audit, append_outbox, append_events, scoped_key, find_replay, new_record, write_new,
  insert_record, create_record, updated_record, write_update, update_record, record_payload,
}
use enterprise_workflow_plat.Store.Memory.Trace.{Call, creates_workflow, creates_record, run, step}
use enterprise_workflow_plat.Store.Memory.Fresh.{HasRoom}
use enterprise_workflow_plat.Store.Memory.Sound.{IsSound, run-new_memory_store-IsSound}
use enterprise_workflow_plat.Store.Memory.Isolation.{SameView}
use enterprise_workflow_plat.Http.{
  Json, updates_record, Request, UpdateRecordRequest, authorize, handle, serve, expected_version,
  write_err, handle_update_record, update_response,
}
use enterprise_workflow_plat.Http.Access.{Refused, MayUse, authorize-MayUse}
use enterprise_workflow_plat.Http.Memory.{memory_store, serve-SameView, serve-IsSound}
use enterprise_workflow_plat.Http.Conflict.{put_twice}
use enterprise_workflow_plat.Auth.Tests.{codec, manager, ada, ada_token, parsed}

-- What a run has to see through.
memory : Unit {0}
unfolding new_memory_store make_id next_id is_empty_list create_workflow append_audit append_outbox
    append_events scoped_key find_replay new_record write_new insert_record create_record
    updated_record write_update update_record record_payload step run lookup insert inc64 format_06
    contains handle handle_update_record expected_version update_response trim_quotes drop_quotes
    drop_quotes_right parse_int in_range parse_magnitude parse_digits
memory = tt

abbrev clock : Clock
clock n = n

abbrev in_order : {V : Type 0} → Map V → Map V
in_order m = m

abbrev history : List Call
history =
    creates_workflow clock "acme"
      (record zero_workflow { name = "Equipment"; states = "SUBMITTED" ∷ "APPROVED" ∷ [] })
    ∷ creates_record clock "acme" "k1" (record zero_record { workflow_id = "wf_000001" })
    ∷ []

abbrev stored : MemoryStore
stored = run history new_memory_store

stored-IsSound : IsSound stored
stored-IsSound = run-new_memory_store-IsSound history (omega arith)

stored-HasRoom : HasRoom stored
unfolding memory
stored-HasRoom = omega arith

abbrev approval : UpdateRecordRequest
approval = record { state = "APPROVED"; request_data = none; expected_version = 0 }

abbrev json : Json
json = record {
  workflow = λ _. none;
  new_record = λ _. none;
  update = λ text. if text == "approve" then some approval else none;
  message = λ _. "error";
}

abbrev put : Request
put = record {
  method = "PUT";
  path = "api" ∷ "v1" ∷ "records" ∷ "rec_000002" ∷ [];
  header = λ name.
      if name == "Authorization"
      then "Bearer ada.a-secret-of-thirty-two-charactersada"
      else if name == "If-Match"
      then "\"1\""
      else "";
  query_state = "";
  body = "approve";
}

authorize-MayUse_example :
    Refused
      (memory_store clock in_order in_order)
      json
      codec
      manager
      59000000000
      (authorize
        (memory_store clock in_order in_order)
        json
        codec
        manager
        59000000000
        (updates_record "rec_000002")
        put
        stored)
      stored
    ⊎ ((c : Claims) × MayUse codec manager 59000000000 (updates_record "rec_000002") put c
        × (authorize
              (memory_store clock in_order in_order)
              json
              codec
              manager
              59000000000
              (updates_record "rec_000002")
              put
              stored
            ≡ handle
                (memory_store clock in_order in_order)
                json
                (updates_record "rec_000002")
                c.tenant_id
                put
                stored))
authorize-MayUse_example =
    authorize-MayUse (memory_store clock in_order in_order) json codec manager 59000000000
      (updates_record "rec_000002") put stored

bears : bearer (put.header "Authorization") ≡ ok ada_token
unfolding bearer bearer_of fields scan_words is_space equal_fold
bears = refl

serve-SameView_example :
    SameView "evil" stored
      (serve
        (memory_store clock in_order in_order)
        json
        codec
        (some manager)
        59000000000
        put
        stored).1
serve-SameView_example =
    serve-SameView clock in_order in_order json codec manager 59000000000 put stored "evil"
      stored-HasRoom stored-IsSound.fresh
      λ token c h k.
        let text : ok token ≡ ok ada_token = sym h ∙ bears in
        let same : token ≡ ada_token = cc in
        let claims : ok c ≡ ok ada = sym k ∙ ap (parse codec manager 59000000000) same ∙ parsed in
        let is : c ≡ ada = cc in
        λ e. absurd (ground (arith, eq_iff "acme" "evil", ap (λ x. x.tenant_id) is))

serve-IsSound_example :
    IsSound
      (serve
        (memory_store clock in_order in_order)
        json
        codec
        (some manager)
        59000000000
        put
        stored).1
serve-IsSound_example =
    serve-IsSound clock in_order in_order json codec manager 59000000000 put stored stored-HasRoom
      stored-IsSound

put_twice_example :
    let t =
      run []
        (handle
          (memory_store clock in_order in_order)
          json
          (updates_record "rec_000002")
          "acme"
          put
          stored).1 in
    handle (memory_store clock in_order in_order) json (updates_record "rec_000002") "acme" put t
    ≡ (write_err 409 "version conflict", t)
unfolding memory
put_twice_example =
    put_twice clock clock in_order in_order json "acme" "rec_000002" put put approval approval
      stored [] refl refl refl stored-IsSound (omega arith) refl
