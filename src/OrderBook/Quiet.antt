-- ===== src/OrderBook/Quiet.antt =====
-- cppexchange/orderbook.h: steps that reach the book alone.
use cpp_exchange.Prelude.{◌≡◌, refl, ◌∙◌}
use cpp_exchange.OrderBook.State.{World}

-- From `w` to `w'` no message was sent, no trade counted and no clock read.
pub record Quiet (w w' : World) : Type 0 where
  pub ticker_same : w'.book.ticker_id ≡ w.book.ticker_id
  pub responses_same : w'.client_response_queue ≡ w.client_response_queue
  pub updates_same : w'.market_update_queue ≡ w.market_update_queue
  pub trades_same : w'.next_trade_id ≡ w.next_trade_id
  pub clock_same : w'.clock ≡ w.clock
  pub reads_same : w'.clock_reads ≡ w.clock_reads

pub Quiet-trans : (w w1 w2 : World) → Quiet w w1 → Quiet w1 w2 → Quiet w w2
Quiet-trans w w1 w2 p q = record {
  ticker_same = q.ticker_same ∙ p.ticker_same;
  responses_same = q.responses_same ∙ p.responses_same;
  updates_same = q.updates_same ∙ p.updates_same;
  trades_same = q.trades_same ∙ p.trades_same;
  clock_same = q.clock_same ∙ p.clock_same;
  reads_same = q.reads_same ∙ p.reads_same;
}

pub Quiet-refl : (w : World) → Quiet w w
Quiet-refl w = record {
  ticker_same = refl;
  responses_same = refl;
  updates_same = refl;
  trades_same = refl;
  clock_same = refl;
  reads_same = refl;
}
