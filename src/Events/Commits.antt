-- ===== src/Events/Commits.antt =====
-- The loop of `Run` on a finite topic: the reader hands out the messages in order, and then the
-- context ends.
use enterprise_workflow_plat.Common.{
  ℕ, zero, suc, ◌+◌, ◌<◌, String, List, [], ◌∷◌, ◌++◌, none, some, ◌≡◌, ◌*◌, refl, sym, ◌∙◌, ap,
  arith, inl, inr, Option-cases, Result-cases, List-cases, length, All, append_assoc, append-nil,
}
use enterprise_workflow_plat.Domain.{OutboxEvent}
use enterprise_workflow_plat.Relay.{Failure}
use enterprise_workflow_plat.Events.Delivery.{Settled, consume_message-Settled}
use enterprise_workflow_plat.Events.{
  commit_error, Message, Services, Fetched, fetched, cancelled, consume_message, run_consumer,
  retry_loop, retry, publish_dlq, dead_letter, handler_failed, max_attempts, retry_delay,
}

-- A topic that the reader goes through: what it has not handed out, what it has committed, and the
-- state of everything else.
pub record Topic (W : Type 0) : Type 0 where
  pub unread : List Message
  pub committed : List Message
  pub world : W

module _ {W : Type 0} (services : Services W) (fuel : ℕ) (dlq_topic : String) (w : W) where
  run_consumer-cancelled :
      (w' : W)
      → services.fetch w ≡ (cancelled, w')
      → run_consumer services (suc fuel) dlq_topic w ≡ some (none, w')
  unfolding run_consumer
  run_consumer-cancelled w' h = rw (h, run_consumer, h) refl

  module _ (message : Message) (w' w'' : W) (h : services.fetch w ≡ (fetched message, w')) where
    run_consumer-unconsumed :
        (e : String)
        → consume_message services dlq_topic message w' ≡ (some e, w'')
        → run_consumer services (suc fuel) dlq_topic w ≡ some (some e, w'')
    unfolding run_consumer
    run_consumer-unconsumed e k = rw (h, run_consumer, h, k, h, k) refl

    module _ (k : consume_message services dlq_topic message w' ≡ (none, w'')) (last : W) where
      run_consumer-uncommitted :
          (e : String)
          → services.commit message w'' ≡ (some e, last)
          → run_consumer services (suc fuel) dlq_topic w ≡ some (some (commit_error e), last)
      unfolding run_consumer
      run_consumer-uncommitted e l = rw (h, run_consumer, h, k, h, k, l, h, k, l) refl

      run_consumer-committed :
          services.commit message w'' ≡ (none, last)
          → run_consumer services (suc fuel) dlq_topic w ≡ run_consumer services fuel dlq_topic last
      unfolding run_consumer
      run_consumer-committed l = rw (h, run_consumer, h, k, h, k, l, h, k, l) refl

-- The services of the rest, with a reader of the topic; a commit is refused by `refuses`.
module _ {W : Type 0} (rest : Services W) (refuses : Message → W → Failure) where
  abbrev fetch_from : List Message → Topic W → Fetched × Topic W
  fetch_from [] t = (cancelled, t)
  fetch_from (message ∷ more) t = (fetched message, record t { unread = more })

  abbrev commit_with : Failure → Message → Topic W → Failure × Topic W
  commit_with none message t = (none, record t { committed = t.committed ++ message ∷ [] })
  commit_with (some e) message t = (some e, t)

  abbrev on_world : {A : Type 0} → (W → A × W) → Topic W → A × Topic W
  on_world f t = ((f t.world).0, record t { world = (f t.world).1 })

  abbrev pub topic_services : Services (Topic W)
  topic_services = record {
    fetch = λ t. fetch_from t.unread t;
    commit = λ message t. commit_with (refuses message t.world) message t;
    decode = rest.decode;
    handle_event = λ event. on_world (rest.handle_event event);
    publish_event = λ event. on_world (rest.publish_event event);
    wait = λ d. on_world (rest.wait d);
    now = λ t. rest.now t.world;
  }

  -- Consuming a message leaves the reader's position alone.
  retry_loop-position :
      (left attempt delay : ℕ) (fn : W → Failure × W) (t : Topic W)
      → let t' = (retry_loop topic_services left attempt delay (on_world fn) t).1 in
        (t'.unread ≡ t.unread) × (t'.committed ≡ t.committed)
  unfolding retry_loop
  retry_loop-position zero attempt delay fn t = (refl, refl)
  retry_loop-position (suc left) attempt delay fn t = elim (Option-cases (fn t.world).0) [
    | inl went ↦ rw (went, retry_loop) (refl, refl)
    | inr (reason, failed) ↦ elim (Option-cases (rest.wait (delay * attempt) (fn t.world).1).0) [
      | inr (ended, stopped) ↦ rw (failed, retry_loop, stopped) (refl, refl)
      | inl waited ↦
          rw (failed, retry_loop, waited)
            (retry_loop-position left (attempt + 1) delay fn
              (record t { world = (rest.wait (delay * attempt) (fn t.world).1).1 }))
    ]
  ]

  publish_dlq-position :
      (event : OutboxEvent) (t : Topic W)
      → let t' = (publish_dlq topic_services event t).1 in
        (t'.unread ≡ t.unread) × (t'.committed ≡ t.committed)
  unfolding publish_dlq
  publish_dlq-position event t =
      elim (Option-cases (rest.publish_event (dead_letter (rest.now t.world) event) t.world).0) [
        | inl went ↦ rw (went, publish_dlq) (refl, refl)
        | inr (reason, failed) ↦ rw (failed, publish_dlq) (refl, refl)
      ]

  consume_message-position :
      (dlq_topic : String) (message : Message) (t : Topic W)
      → let t' = (consume_message topic_services dlq_topic message t).1 in
        (t'.unread ≡ t.unread) × (t'.committed ≡ t.committed)
  unfolding consume_message retry
  consume_message-position dlq_topic message t = elim (Result-cases (rest.decode message.value)) [
    | inl (reason, broken) ↦ rw (broken, consume_message) (publish_dlq-position _ t)
    | inr (event, read) ↦
        let tried =
          retry topic_services max_attempts retry_delay (on_world (rest.handle_event event)) t in
        let (unread, committed) = retry_loop-position 2 1 retry_delay (rest.handle_event event) t in
        elim (Option-cases tried.0) [
          | inl went ↦ rw (read, consume_message, went) (unread, committed)
          | inr (reason, failed) ↦
              let (u, c) = publish_dlq-position (handler_failed dlq_topic reason event) tried.1 in
              rw (read, consume_message, failed) (u ∙ unread, c ∙ committed)
        ]
  ]

  -- Where a run has ended that began at `t`: the messages `done` are committed, in order, and each
  -- of them was settled; without an error, they are all.
  pub record Ended (dlq_topic : String) (t : Topic W) (r : Failure × Topic W) : Type 0 where
    pub done : List Message
    pub left : List Message
    pub split : t.unread ≡ done ++ left
    pub commits : r.1.committed ≡ t.committed ++ done
    pub settled :
        All
          (λ message.
            (before : Topic W) × (after : Topic W) × Settled topic_services dlq_topic message before
              after)
          done
    pub complete : r.0 ≡ none → left ≡ []

  stopped_at :
      (dlq_topic : String) (t : Topic W) (e : String) (t' : Topic W)
      → t'.committed ≡ t.committed
      → Ended dlq_topic t (some e, t')
  stopped_at dlq_topic t e t' same = record {
    done = [];
    left = t.unread;
    split = refl;
    commits = same ∙ sym (append-nil t.committed);
    settled = tt;
    complete = λ h. cc;
  }

  -- The rest of a run, after a message that was settled and committed.
  went_on :
      (dlq_topic : String) (message : Message) (more : List Message) (t t' before after : Topic W)
      (r : Failure × Topic W)
      → t.unread ≡ message ∷ more
      → t'.unread ≡ more
      → t'.committed ≡ t.committed ++ message ∷ []
      → Settled topic_services dlq_topic message before after
      → Ended dlq_topic t' r
      → Ended dlq_topic t r
  went_on dlq_topic message more t t' before after r unread next commits settled ended = record {
    done = message ∷ ended.done;
    left = ended.left;
    split = unread ∙ ap (◌∷◌ message) (sym next ∙ ended.split);
    commits =
        ended.commits
        ∙ ap (λ ms. ms ++ ended.done) commits
        ∙ append_assoc t.committed (message ∷ []) ended.done;
    settled = ((before, after, settled), ended.settled);
    complete = ended.complete;
  }

  -- The consumer over a finite topic ends, on any fuel above the number of unread messages. It has
  -- then committed a first part of them, in order and each once; each of those was settled, that is,
  -- its event was handled or a dead letter for it was published; and if the run returned no error,
  -- that part is all of them.
  pub run_consumer-Ended :
      (fuel : ℕ) (dlq_topic : String) (t : Topic W)
      → length t.unread < fuel
      → (r : Failure × Topic W) × (run_consumer topic_services fuel dlq_topic t ≡ some r)
        × Ended dlq_topic t r
  unfolding run_consumer
  run_consumer-Ended zero dlq_topic t h = absurd (omega arith)
  run_consumer-Ended (suc fuel) dlq_topic t h = elim (List-cases t.unread) [
    | inl nothing ↦ (
      (none, t),
      run_consumer-cancelled topic_services fuel dlq_topic t t (ap (λ u. fetch_from u t) nothing),
      record {
        done = [];
        left = [];
        split = nothing;
        commits = sym (append-nil t.committed);
        settled = tt;
        complete = λ _. refl;
      },
    )
    | inr (message, more, unread) ↦
        let t₁ : Topic W = record t { unread = more } in
        let next = ap (λ u. fetch_from u t) unread in
        let consumed = consume_message topic_services dlq_topic message t₁ in
        let (same_unread, same_committed) = consume_message-position dlq_topic message t₁ in
        elim (Option-cases consumed.0) [
          | inr (reason, failed) ↦ (
            (some reason, consumed.1),
            run_consumer-unconsumed topic_services fuel dlq_topic t message t₁ consumed.1 next
                reason (ap (λ f. (f, consumed.1)) failed),
            stopped_at dlq_topic t reason consumed.1 same_committed,
          )
          | inl went ↦ elim (Option-cases (refuses message consumed.1.world)) [
            | inr (reason, refused) ↦ (
              (some (commit_error reason), consumed.1),
              run_consumer-uncommitted topic_services fuel dlq_topic t message t₁ consumed.1 next
                  (ap (λ f. (f, consumed.1)) went) consumed.1 reason
                  (ap (λ f. commit_with f message consumed.1) refused),
              stopped_at dlq_topic t (commit_error reason) consumed.1 same_committed,
            )
            | inl accepted ↦
                let t₂ : Topic W = record consumed.1 {
                  committed = consumed.1.committed ++ message ∷ [];
                } in
                let (r, ends, ended) =
                  run_consumer-Ended fuel dlq_topic t₂
                    (omega (arith, h, ap length unread, ap length same_unread)) in
                (
                  r,
                  run_consumer-committed topic_services fuel dlq_topic t message t₁ consumed.1 next
                        (ap (λ f. (f, consumed.1)) went) t₂
                        (ap (λ f. commit_with f message consumed.1) accepted)
                      ∙ ends,
                  went_on dlq_topic message more t t₂ t₁ consumed.1 r unread same_unread
                      (ap (λ ms. ms ++ message ∷ []) same_committed)
                      (consume_message-Settled topic_services dlq_topic message t₁ went) ended,
                )
          ]
        ]
  ]
