-- ===== src/Tests/Stack.antt =====
-- distributed/app/db.py on tables of two tickets, where a UUID is a number, and
-- distributed/app/cache.py on a Redis that answers always.
use ticket_selling_system.Prelude.{
  ℕ, ◌≡◌, ◌⊎◌, ite, sym, ap, ◌∙◌, some_eq, ℕ_discrete, nat_key, refl, inl, inr, Bool, false, some,
  none, [], ◌∷◌, String, Option, arith, string_key, string_discrete, length,
}
use ticket_selling_system.Dict.{joined}
use ticket_selling_system.Store.{fresh}
use ticket_selling_system.Seller.{buy}
use ticket_selling_system.Buyer.{check_invariants}
use ticket_selling_system.Db.{Tables, DbError, BuyResult, ok, raised, atomic_buy}
use ticket_selling_system.Db.Valid.{IsValid, with_sale, atomic_buy-IsValid}
use ticket_selling_system.Db.Refines.{Agrees, atomic_buy-Agrees}
use ticket_selling_system.Db.Snapshot.{get_status}
use ticket_selling_system.Db.Torn.{torn_status_fails}
use ticket_selling_system.Cache.{StatusKey, Json, answers}

-- Three texts of two UUIDs.
abbrev pub parse : String → Option ℕ
parse s =
    ite (string_discrete s "aa") (some 1)
      (ite (string_discrete s "AA") (some 1) (ite (string_discrete s "bb") (some 2) none))

abbrev InLowerCase : String → Type 0
InLowerCase s = (s ≡ "aa") ⊎ (s ≡ "bb")

lower_case_unique :
    (a b : String) (id : ℕ)
    → InLowerCase a
    → InLowerCase b
    → parse a ≡ some id
    → parse b ≡ some id
    → a ≡ b
unfolding string_discrete
lower_case_unique a b id (inl e) (inl f) p q = e ∙ sym f
lower_case_unique a b id (inr e) (inr f) p q = e ∙ sym f
lower_case_unique a b id (inl e) (inr f) p q =
    absurd (omega (arith, some_eq (sym (ap parse e) ∙ p ∙ sym q ∙ ap parse f)))
lower_case_unique a b id (inr e) (inl f) p q =
    absurd (omega (arith, some_eq (sym (ap parse e) ∙ p ∙ sym q ∙ ap parse f)))

abbrev pub no_sale : Tables ℕ
no_sale = record { total_tickets = 2; sold_count = 0; sold_tickets = [] }

pub no_sale-IsValid : IsValid no_sale
no_sale-IsValid = record { numbered = refl; not_oversold = omega arith; fits = omega arith }

-- A count that lags behind the rows, so that the next ticket number is taken.
abbrev pub lagging : Tables ℕ
lagging = record {
  total_tickets = 2;
  sold_count = 0;
  sold_tickets = record { req_id = 1; user_id = "ann"; ticket_number = 1 } ∷ [];
}

lagging_raises : (atomic_buy parse "bob" "bb" lagging).0 ≡ raised DbError.unique_violation
unfolding atomic_buy string_discrete ℕ_discrete
lagging_raises = refl

one_ticket_for_two_texts :
    (atomic_buy parse "ann" "AA" (atomic_buy parse "ann" "aa" no_sale).1).1.sold_count ≡ 1
unfolding atomic_buy string_discrete ℕ_discrete
one_ticket_for_two_texts = refl

pub answers_eq : {A : Type 0} {a b : A} → answers a ≡ answers b → a ≡ b
answers_eq e = cc

-- One key that always answers.
abbrev one_key : StatusKey String
one_key = record {
  Server = Option String;
  held = λ s. s;
  get_key = λ s. (answers s, s);
  set_key = λ v s. (answers tt, some v);
  delete_key = λ s. (answers tt, none);
  get_answers = λ s v e. inl (answers_eq (sym e));
  get_keeps = λ s. inl refl;
  set_answers = λ v s e. refl;
  set_keeps = λ v s. inl refl;
  delete_answers = λ s e. refl;
  delete_keeps = λ s. inl refl;
}

-- A status is its own text.
abbrev plain : Json String String
plain = record { dumps = λ s. s; loads = λ s. some s; loads-dumps = λ b. refl }

-- Each theorem at an input.
atomic_buy-IsValid_example :
    IsValid (atomic_buy parse "ann" "aa" no_sale).1
    × ((r : BuyResult × Bool) × ((atomic_buy parse "ann" "aa" no_sale).0 ≡ ok r))
unfolding string_discrete
atomic_buy-IsValid_example = atomic_buy-IsValid parse "ann" "aa" no_sale 1 no_sale-IsValid refl

atomic_buy-Agrees_example :
    Agrees parse InLowerCase
      (atomic_buy parse "ann" "aa" no_sale)
      (buy (record { user_id = "ann"; req_id = "aa" }) (fresh 2))
unfolding string_discrete
atomic_buy-Agrees_example =
    atomic_buy-Agrees parse InLowerCase (record { user_id = "ann"; req_id = "aa" }) no_sale
      (fresh 2) 1 lower_case_unique (inl refl) refl no_sale-IsValid
      (record { same_total = refl; same_count = refl; same_record = λ text j c p. refl })

abbrev show : ℕ → String
show _ = "aa"

torn_status_fails_example :
    (length (joined (get_status show no_sale (with_sale 1 "ann" no_sale)).user_tickets) ≡ 1)
    × (check_invariants (get_status show no_sale (with_sale 1 "ann" no_sale)) [] ≡ false)
torn_status_fails_example = torn_status_fails show no_sale 1 "ann" [] no_sale-IsValid (omega arith)
