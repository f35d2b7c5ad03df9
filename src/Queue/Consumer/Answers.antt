-- ===== src/Queue/Consumer/Answers.antt =====
-- A request on its way through the stream: from `XADD` over a turn of a consumer to `BLPOP`.
use ticket_selling_system.Prelude.{
  ℕ, zero, suc, ◌+◌, ◌≤◌, ◌<◌, ◌≡◌, ◌≢◌, refl, sym, ap, ◌∙◌, String, false, Option, some, List, [],
  ◌∷◌, ◌++◌, Key, subst, string_key, All, length, length-append, append_assoc, append-nil,
  replicate, arith, if_pos, if_neg,
}
use ticket_selling_system.Breaker.{RedisCircuitBreaker, is_open}
use ticket_selling_system.Db.{Tables, atomic_buy}
use ticket_selling_system.Queue.{
  Entry, Message, Pushed, Service, acknowledged, pick, put_back, pushed_of, enqueue, deliver,
  pop_result, push_result, process_entry,
}
use ticket_selling_system.Queue.Consumer.{
  replies, batch_size, deliver_up_to, process_all, consumer_turn, consume,
}

pick-append :
    (ms : List Message) (m : Message) (ns : List Message)
    → pick (length ms) (ms ++ m ∷ ns) ≡ some (m, ms ++ ns)
pick-append [] m ns = refl
pick-append (l ∷ ms) m ns = ap (put_back l) (pick-append ms m ns)

pick-held :
    (held ms ns : List Message) (m : Message)
    → ms ≡ held ++ (m ∷ ns)
    → pick (length held + 0) ms ≡ some (m, held ++ ns)
pick-held held ms ns m e =
    ap (λ n. pick n ms) (omega arith) ∙ ap (pick (length held)) e ∙ pick-append held m ns

abbrev pub entries : List Message → List Entry
entries [] = []
entries (m ∷ ms) = m.fields ∷ entries ms

-- All that was in the stream is held behind what was held.
record IsDelivered {Uuid : Type 0} (y z : Service Uuid) : Type 0 where
  tables : z.tables ≡ y.tables
  stream : z.stream ≡ []
  held : z.held ≡ y.held ++ y.stream
  results : z.results ≡ y.results
  told : z.told ≡ y.told

module _ {Uuid : Type 0} where
  deliver_up_to-none : (n : ℕ) (y : Service Uuid) → y.stream ≡ [] → deliver_up_to n y ≡ y
  unfolding deliver_up_to deliver
  deliver_up_to-none zero y e = refl
  deliver_up_to-none (suc n) y e =
      ap (λ ms. deliver_up_to n (deliver ms y)) e ∙ deliver_up_to-none n y e

  deliver_up_to-IsDelivered :
      (n : ℕ) (ms : List Message) (y : Service Uuid)
      → y.stream ≡ ms
      → length ms ≤ n
      → IsDelivered y (deliver_up_to n y)
  unfolding deliver_up_to deliver
  deliver_up_to-IsDelivered n [] y e h = rw (deliver_up_to-none n y e) (record {
    tables = refl;
    stream = e;
    held = sym (append-nil y.held) ∙ ap (λ ms. y.held ++ ms) (sym e);
    results = refl;
    told = refl;
  })
  deliver_up_to-IsDelivered zero (m ∷ ms) y e h = absurd (omega (arith, h))
  deliver_up_to-IsDelivered (suc n) (m ∷ ms) y e h =
      let d = deliver_up_to-IsDelivered n ms (deliver (m ∷ ms) y) refl (omega (arith, h)) in
      subst (λ l. IsDelivered y (deliver_up_to n (deliver l y))) (sym e)
        (record {
          tables = d.tables;
          stream = d.stream;
          held = d.held ∙ append_assoc y.held (m ∷ []) ms ∙ ap (λ ms. y.held ++ ms) (sym e);
          results = d.results;
          told = d.told;
        })

-- What is left when the entries were processed, the last of which was the request's.
record IsAnswered {Uuid : Type 0} (id : String) (p : Pushed) (t : Tables Uuid) (held : List Message)
    (y z : Service Uuid) : Type 0 where
  tables : z.tables ≡ t
  stream : z.stream ≡ y.stream
  held_ : z.held ≡ held
  results : z.results id ≡ y.results id ++ p ∷ []
  told : z.told ≡ y.told

module _ {Uuid : Type 0} ⦃key : Key Uuid⦄ (parse : String → Option Uuid) where
  abbrev processed : Message → List Message → Service Uuid → Service Uuid
  processed m others y = process_entry parse acknowledged (some (m, others)) y

  processed-results :
      (m : Message) (others : List Message) (id : String) (y : Service Uuid)
      → m.fields.req_id ≢ id
      → (processed m others y).results id ≡ y.results id
  unfolding process_entry push_result
  processed-results m others id y ne =
      if_neg (string_key.same id m.fields.req_id) (λ same. ne (sym same)) _ (y.results id)

  processed-result :
      (m : Message) (others : List Message) (y : Service Uuid)
      → (processed m others y).results m.fields.req_id
        ≡ y.results m.fields.req_id
          ++ pushed_of (atomic_buy parse m.fields.user_id m.fields.req_id y.tables).0 ∷ []
  unfolding process_entry push_result
  processed-result m others y =
      if_pos (string_key.same m.fields.req_id m.fields.req_id) refl _ (y.results m.fields.req_id)

  process_all-IsAnswered :
      (ms : List Message) (m : Message) (held : List Message) (y : Service Uuid)
      → y.held ≡ held ++ (ms ++ m ∷ [])
      → All (λ n. n.fields.req_id ≢ m.fields.req_id) ms
      → let o =
          atomic_buy parse m.fields.user_id m.fields.req_id (consume parse (entries ms) y.tables) in
        IsAnswered m.fields.req_id
          (pushed_of o.0)
          o.1
          held
          y
          (process_all parse (length held) (replicate (suc (length ms)) (0, acknowledged)) y)
  unfolding process_all consume process_entry push_result
  process_all-IsAnswered [] m held y e h =
      rw (pick-held held y.held [] m e, append-nil held)
        (record {
          tables = refl;
          stream = refl;
          held_ = refl;
          results = processed-result m held y;
          told = refl;
        })
  process_all-IsAnswered (n ∷ ms) m held y e h =
      rw (pick-held held y.held (ms ++ m ∷ []) n e, process_all)
        (let o =
            atomic_buy parse m.fields.user_id m.fields.req_id
              (consume parse (entries (n ∷ ms)) y.tables) in
          let k =
            process_all-IsAnswered ms m held (processed n (held ++ (ms ++ m ∷ [])) y) refl h.1 in
          record {
            tables = k.tables;
            stream = k.stream;
            held_ = k.held_;
            results =
                k.results
                ∙ ap (λ ps. ps ++ pushed_of o.0 ∷ [])
                    (processed-results n (held ++ (ms ++ m ∷ [])) m.fields.req_id y h.0);
            told = k.told;
          })

  popped_told :
      (id : String) (p : Pushed) (z : Service Uuid)
      → z.results id ≡ p ∷ []
      → (pop_result id (z.results id) z).told ≡ (id, p) ∷ z.told
  unfolding pop_result
  popped_told id p z e = ap (λ ps. (pop_result id ps z).told) e

  -- If the breaker is closed, fewer than ten entries wait in the stream, none of them with the
  -- req_id of a new request, and no result for this req_id is left, then a request that is
  -- enqueued and a turn of a consumer in which every entry is processed in order and
  -- acknowledged make the handler pop exactly what `atomic_buy` returns for the request on the
  -- tables as the entries before it leave them; the tables are those after this call, the
  -- stream is empty, and no entry more is held than before.
  pub enqueued_is_answered :
      (e : Entry) (now : ℕ) (b : RedisCircuitBreaker) (y : Service Uuid)
      → is_open now b ≡ false
      → length y.stream < batch_size
      → y.results e.req_id ≡ []
      → All (λ m. m.fields.req_id ≢ e.req_id) y.stream
      → let read = replies (replicate (suc (length y.stream)) (0, acknowledged)) in
        let z = (consumer_turn parse now read b (enqueue e y)).1 in
        let o = atomic_buy parse e.user_id e.req_id (consume parse (entries y.stream) y.tables) in
        ((pop_result e.req_id (z.results e.req_id) z).told ≡ (e.req_id, pushed_of o.0) ∷ y.told)
        × (z.tables ≡ o.1)
        × (z.stream ≡ [])
        × (z.held ≡ y.held)
  unfolding consumer_turn pop_result enqueue
  enqueued_is_answered e now b y closed room fresh others =
      let m : Message = record { entry_id = y.next_id; fields = e } in
      let y' = deliver_up_to batch_size (enqueue e y) in
      let z =
        process_all parse (length y.held) (replicate (suc (length y.stream)) (0, acknowledged))
          y' in
      let d =
        deliver_up_to-IsDelivered batch_size (y.stream ++ m ∷ []) (enqueue e y) refl
          (omega (arith, room, length-append y.stream (m ∷ []))) in
      let k =
        subst
          (λ t.
            let o = atomic_buy parse e.user_id e.req_id (consume parse (entries y.stream) t) in
            IsAnswered e.req_id (pushed_of o.0) o.1 y.held y' z)
          d.tables (process_all-IsAnswered y.stream m y.held y' d.held others) in
      let p =
        pushed_of
          (atomic_buy parse e.user_id e.req_id (consume parse (entries y.stream) y.tables)).0 in
      rw closed (
        popped_told e.req_id p z
              (k.results ∙ ap (λ ps. ps ++ p ∷ []) (ap (λ f. f e.req_id) d.results ∙ fresh))
            ∙ ap (λ a. (e.req_id, p) ∷ a) (k.told ∙ d.told),
        k.tables,
        k.stream ∙ d.stream,
        k.held_,
      )
