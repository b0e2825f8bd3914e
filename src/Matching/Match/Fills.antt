-- ===== src/Matching/Match/Fills.antt =====
-- What matching does to the incoming order: what is traded is what it loses, at prices it accepts.
use hld_lld_interview_handbo.Prelude.{
  ap, some, ℕ, zero, suc, ◌+◌, ◌<◌, ◌≡◌, refl, sym, ◌∙◌, arith, ◌==◌, String, List, [], ◌∷◌, ◌++◌,
  true, false, All, length,
}
use mathlib.Core.Path.{subst}
use hld_lld_interview_handbo.Dict.{nat_key, string_key, get}
use hld_lld_interview_handbo.Matching.{
  Side, opposite, Order, Trade, OrderBook, levels_of, is_live, crosses, queue_or_empty, best,
}
use hld_lld_interview_handbo.Matching.Match.{
  Progress, hit, traded, execute, fill_queue, sweep, match_from, match_order, start,
}
use hld_lld_interview_handbo.Matching.Match.Cases.{
  stops, skips, ends, goes_on, IsFill-cases, looked_up, full, exhausted, declined, swept,
  match-cases,
}
use hld_lld_interview_handbo.Matching.Match.Names.{
  own_id, other_id, IsKnown, AllKnown, traded_names, put-AllKnown, known_set,
}

abbrev pub volume : List Trade → ℕ
volume [] = 0
volume (t ∷ trades) = t.quantity + volume trades

volume-append : (ts us : List Trade) → volume (ts ++ us) ≡ volume ts + volume us
volume-append [] us = omega arith
volume-append (t ∷ ts) us = omega (arith, volume-append ts us)

-- A trade of something with an order of the book, at a price that the order accepts, in its name.
abbrev pub IsFair : OrderBook → Order → Trade → Type 0
IsFair b o t =
    (crosses o t.price ≡ true)
    × (0 < t.quantity)
    × (t.aggressor ≡ o.side)
    × (t.sequence ≡ o.sequence)
    × (own_id o.side t ≡ o.order_id)
    × IsKnown b (other_id o.side t)

All-append : (P : Trade → Type 0) (ts us : List Trade) → All P ts → All P us → All P (ts ++ us)
All-append P [] us h k = k
All-append P (t ∷ ts) us h k = (h.0, All-append P ts us h.1 k)

-- What is left of the order `o`, of which `total` was asked for, and what was traded for it.
pub record IsPart (b : OrderBook) (o : Order) (total : ℕ) (f : Progress) : Type 0 where
  pub name : f.taker.order_id ≡ o.order_id
  pub turn : f.taker.sequence ≡ o.sequence
  pub side : f.taker.side ≡ o.side
  pub limit : f.taker.price ≡ o.price
  pub balance : volume f.trades + f.taker.remaining ≡ total
  pub known : AllKnown b f.book.objects
  pub fair : All (IsFair b o) f.trades

execute-IsPart :
    (b : OrderBook) (o maker : Order) (total price n : ℕ) (symbol : String) (f : Progress)
    → crosses o price ≡ true
    → (f.taker.remaining == 0) ≡ false
    → is_live maker ≡ true
    → get f.book.objects n ≡ some maker
    → IsPart b o total f
    → IsPart b o total (execute symbol price n maker f)
unfolding is_live
execute-IsPart b o maker total price n symbol f accepts some_left live held h =
    let t : Trade = traded symbol price maker f in
    let known : IsKnown b maker.order_id = h.known n maker held in
    let (own, other) = traded_names f.taker.side f.taker maker t refl refl in
    record {
      name = h.name;
      turn = h.turn;
      side = h.side;
      limit = h.limit;
      balance = omega (arith, h.balance, volume-append f.trades (t ∷ []));
      known = put-AllKnown b f.book.objects n (hit f.taker maker) known h.known;
      fair = All-append (IsFair b o) f.trades (t ∷ []) h.fair (
        (
          accepts,
          ground arith,
          h.side,
          h.turn,
          ap (λ (s : Side). own_id s t) (sym h.side) ∙ own ∙ h.name,
          subst (IsKnown b) (sym other ∙ ap (λ (s : Side). other_id s t) h.side) known,
        ),
        tt,
      );
    }

fill_queue-IsPart :
    (b : OrderBook) (o : Order) (total price : ℕ) (symbol : String) (queue : List ℕ) (f : Progress)
    → crosses o price ≡ true
    → IsPart b o total f
    → IsPart b o total (fill_queue symbol price queue f).1
unfolding fill_queue
fill_queue-IsPart b o total price symbol [] f accepts h = h
fill_queue-IsPart b o total price symbol (n ∷ queue) f accepts h =
    let Goal : List ℕ × Progress → Type 0 = λ r. IsPart b o total r.1 in
    elim (IsFill-cases symbol price n queue f) [
      | stops _ e ↦ subst Goal (sym e) h
      | skips e ↦ subst Goal (sym e) (fill_queue-IsPart b o total price symbol queue f accepts h)
      | ends maker here some_left live _ e ↦
          subst Goal (sym e)
            (execute-IsPart b o maker total price n symbol f accepts some_left live here h)
      | goes_on maker here some_left live e ↦ subst Goal (sym e) (
          fill_queue-IsPart b o total price symbol queue (execute symbol price n maker f) accepts
            (execute-IsPart b o maker total price n symbol f accepts some_left live here h))
    ]

sweep-IsPart :
    (b : OrderBook) (o : Order) (total price : ℕ) (symbol : String) (f : Progress)
    → crosses o price ≡ true
    → IsPart b o total f
    → IsPart b o total (sweep symbol price f)
unfolding sweep
sweep-IsPart b o total price symbol f accepts h =
    let queue : List ℕ =
      queue_or_empty (get (levels_of (opposite f.taker.side) f.book).queues price) in
    let swept : List ℕ × Progress = fill_queue symbol price queue f in
    let filled = fill_queue-IsPart b o total price symbol queue f accepts h in
    record {
      name = filled.name;
      turn = filled.turn;
      side = filled.side;
      limit = filled.limit;
      balance = filled.balance;
      known = known_set b (opposite f.taker.side) _ swept.1.book filled.known;
      fair = filled.fair;
    }

looked_up-IsPart :
    (b : OrderBook) (o : Order) (total : ℕ) (f : Progress)
    → IsPart b o total f
    → IsPart b o total (looked_up f)
unfolding best
looked_up-IsPart b o total f h = record {
  name = h.name;
  turn = h.turn;
  side = h.side;
  limit = h.limit;
  balance = h.balance;
  known = known_set b (opposite f.taker.side) _ f.book h.known;
  fair = h.fair;
}

crosses-same :
    (o p : Order) (price : ℕ)
    → p.side ≡ o.side
    → p.price ≡ o.price
    → crosses p price ≡ crosses o price
unfolding crosses
crosses-same o p price e k = rw (e, k) refl

match_from-IsPart :
    (b : OrderBook) (rounds : ℕ) (o : Order) (total : ℕ) (symbol : String) (f : Progress)
    → IsPart b o total f
    → IsPart b o total (match_from rounds symbol f)
unfolding match_from
match_from-IsPart b zero o total symbol f h = h
match_from-IsPart b (suc rounds) o total symbol f h = elim (match-cases rounds symbol f) [
  | full _ e ↦ subst (IsPart b o total) (sym e) h
  | exhausted _ e ↦ subst (IsPart b o total) (sym e) (looked_up-IsPart b o total f h)
  | declined _ _ _ e ↦ subst (IsPart b o total) (sym e) (looked_up-IsPart b o total f h)
  | swept price _ _ crossed e ↦ subst (IsPart b o total) (sym e) (
      match_from-IsPart b rounds o total symbol (sweep symbol price (looked_up f)) (
        sweep-IsPart b o total price symbol (looked_up f)
          (sym (crosses-same o f.taker price h.side h.limit) ∙ crossed)
          (looked_up-IsPart b o total f h)))
]

-- Matching trades exactly what the incoming order loses. Each trade is of something, at a price that
-- the order accepts; it names the order on its own side and an order of the book on the other.
pub match_order-IsPart :
    (symbol : String) (taker : Order) (b : OrderBook)
    → IsPart b taker taker.remaining (match_order symbol taker b)
unfolding match_order
match_order-IsPart symbol taker b =
    match_from-IsPart b (length (levels_of (opposite taker.side) b).heap + 1) taker taker.remaining
      symbol (start taker b)
      (record {
        name = refl;
        turn = refl;
        side = refl;
        limit = refl;
        balance = omega arith;
        known = λ k o e. (k, o, e, refl);
        fair = tt;
      })
