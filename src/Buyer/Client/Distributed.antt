-- ===== src/Buyer/Client/Distributed.antt =====
-- distributed/app/main.py as a seller that the clients are run against: `/buy` with the limiter, the
-- queue and the database, `/reset`, and `GET /status` as it reads the database, with no purchase under
-- way.
use ticket_selling_system.Prelude.{
  ℕ, ◌<◌, ◌≡◌, refl, String, Bool, Option, none, some, List, Key, string_key, none_eq_some, All,
}
use ticket_selling_system.Store.{BuyRequest, StatusBody}
use ticket_selling_system.Buyer.{BodyStatus, of_seller, RequestResult, check_invariants}
use ticket_selling_system.Buyer
use ticket_selling_system.Buyer.Client.{Reply, body, not_json, HttpSeller, Turn, main}
use ticket_selling_system.Buyer.Client.Passes.{main_exits_zero}
use ticket_selling_system.Buyer.Client.Sellers.{body_ticket}
use ticket_selling_system.Buyer.Client.Earlier.{
  IsWritten, ticket_of, recorded_ticket, earlier_status_passes,
}
use ticket_selling_system.Buyer.Client.Sites.{
  IsOpen, IsNew, uncached-Holds, visit-Handled, visit-IsOpen, reset_site-IsOpen, status-IsEarlier,
}
use ticket_selling_system.Limiter.{Limits}
use ticket_selling_system.Db.{Tables, int_bound}
use ticket_selling_system.Cache.{StatusKey, Json}
use ticket_selling_system.Queue.{Entry, Pushed, bought}
use ticket_selling_system.App.{Response, rate_limited, sold_by, server_error, limiter_error}
use ticket_selling_system.App.Served.Ready.{IsReady-IsServed}
use ticket_selling_system.App.Served.Keeps.{IsKept, TellsRecorded}
use ticket_selling_system.App.Site.{ReadsAfter, Visit, Site, visit, reset_site, status}

-- The body of a response; that of a 500 is no JSON.
abbrev pub reply_of : Response → Reply
reply_of (rate_limited a) = body (some Buyer.rate_limited) none
reply_of (sold_by path (bought r)) = body (some (of_seller r.status)) r.ticket_number
reply_of (sold_by path (Pushed.error e)) = body (some Buyer.error) none
reply_of (server_error e) = not_json
reply_of limiter_error = not_json

abbrev pub entry_of : BuyRequest → Entry
entry_of req = record { user_id = req.user_id; req_id = req.req_id }

module _ {Uuid : Type 0} ⦃key : Key Uuid⦄ (parse : String → Option Uuid)
    (show : Uuid → String) where
  pub TellsRecorded-ticket :
      (t : Tables Uuid) (req_id : String) (response : Response) (b : Option BodyStatus) (n : ℕ)
      → TellsRecorded parse t req_id response
      → reply_of response ≡ body b (some n)
      → recorded_ticket parse show t req_id ≡ some n
  TellsRecorded-ticket t req_id (rate_limited a) b n h e = none_eq_some (body_ticket e)
  TellsRecorded-ticket t req_id (sold_by path (bought r)) b n h e =
      let (id, good, found) = h n (body_ticket e) in rw good found
  TellsRecorded-ticket t req_id (sold_by path (Pushed.error d)) b n h e =
      none_eq_some (body_ticket e)
  TellsRecorded-ticket t req_id (server_error d) b n h e = cc
  TellsRecorded-ticket t req_id limiter_error b n h e = cc

  pub ticket_of-kept :
      (o : Option Uuid) (t t' : Tables Uuid) (n : ℕ)
      → IsKept parse t t'
      → ticket_of parse show o t ≡ some n
      → ticket_of parse show o t' ≡ some n
  ticket_of-kept none t t' n k h = none_eq_some h
  ticket_of-kept (some id) t t' n k h = k id n h

  module _ (apart : (a b : Uuid) → show a ≡ show b → a ≡ b) {Text : Type 0} (r : StatusKey Text)
      (json : Json Text StatusBody) where
    -- `total` is TOTAL_TICKETS.
    abbrev pub distributed_seller : Limits → (total : ℕ) → total < int_bound → HttpSeller
    distributed_seller c total small = record {
      State = Site r json Uuid;
      Env = Visit;
      buy = λ v req x.
          let (response, x') = visit r json parse show c v (entry_of req) x in
          (reply_of response, x');
      reset = λ v x. reset_site r json parse show total v x;
      status = λ x. (status r json parse show x).0;
      IsReady = IsNew parse show r json;
      IsGood = IsOpen parse show r json;
      IsAsked = IsWritten parse show;
      record_of = λ x a. recorded_ticket parse show x.service.tables a;
      buy-IsGood = λ v req x o. visit-IsOpen parse show r json c v (entry_of req) x o;
      buy-record = λ v req x b t o asked e.
          let h = visit-Handled parse show r json c v (entry_of req) x o in
          TellsRecorded-ticket _ req.req_id _ b t h.tells e;
      buy-keeps = λ v req x id t o h.
          let z = visit-Handled parse show r json c v (entry_of req) x o in
          ticket_of-kept (parse id) x.service.tables _ t z.kept h;
      ready-IsGood = λ x n. record {
        served = IsReady-IsServed parse x.service x.service n.ready n.ready.keyed refl refl;
        cached = uncached-Holds parse show r json x.service.tables x.cache n.uncached;
      };
      IsCalm = λ v. All ReadsAfter v.cache_calls;
      reset-IsGood = λ v x calm n. reset_site-IsOpen parse show r json total v x small calm n;
      status_passes = λ x rs o w h.
          earlier_status_passes parse show apart x.service.tables (status r json parse show x).0 rs
            (status-IsEarlier parse show r json x o) w h;
    }

  -- For a service of distributed/app with valid tables that have one row for each UUID, with no
  -- results and no answers of an earlier run and no status cached, with TOTAL_TICKETS in the
  -- range of the column, and for requests whose req_ids are texts as `str` writes the UUIDs
  -- that they are read as, with no two UUIDs written alike: in whatever order the attempts of
  -- the load client reach the service, one handler after the other, whichever replica takes
  -- each of them, whatever is lost, whatever the limiters answer and whatever other tasks
  -- report to the breakers before each handler, whatever Redis does, whatever events of the
  -- queue come before each handler and while it waits, and whatever pollers, who read the
  -- database with no purchase under way at the start or the end of a handler and store by its
  -- end, put into the cache, also if no invalidation ever succeeds: if no poller reads before
  -- the reset and stores after it, and no consumer is between the commit of a purchase and the
  -- push of its result when the reset runs, then `main`, which reads the status through the
  -- cache, exits with 0 on the results that are there, with or without --no-reset.
  pub distributed_main_exits_zero :
      (c : Limits) (total : ℕ) (small : total < int_bound) (plan : ℕ → BuyRequest)
      (n max_retries : ℕ) (no_reset : Bool) (apart : (a b : Uuid) → show a ≡ show b → a ≡ b)
      {Text : Type 0} (r : StatusKey Text) (json : Json Text StatusBody) (v : Visit)
      (us : List (Turn (distributed_seller apart r json c total small))) (x : Site r json Uuid)
      → ((i : ℕ) → IsWritten parse show (plan i).req_id)
      → All ReadsAfter v.cache_calls
      → IsNew parse show r json x
      → main (distributed_seller apart r json c total small) plan n max_retries no_reset v us x ≡ 0
  distributed_main_exits_zero c total small plan n max_retries no_reset apart r json v us x written
        punctual new =
      main_exits_zero (distributed_seller apart r json c total small) plan n max_retries no_reset v
        us x written punctual new
