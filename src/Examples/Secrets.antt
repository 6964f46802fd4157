-- ===== src/Examples/Secrets.antt =====
-- The theorem on the secrets of the real tokens at two databases with other access tokens.
use claude_gate.Prelude.{◌≡◌, refl, List, [], ◌∷◌}
use claude_gate.Store.Cascade.{real, gate}
use claude_gate.Token.Manager.{Manager}
use claude_gate.Admin.Routes.{lists, deactivates, deletes, usage_all}
use claude_gate.Console.Alike.{OrdersBlind}
use claude_gate.Console.Secrets.{AdminCall, replies, replies_blind}
use claude_gate.Examples.{simple_engine, calm, sample, real_1, real_2, Item}
use claude_gate.Examples.Tokens.{manager}
use claude_gate.Examples.Consoles.{codecs, draws, asked}

abbrev other_secrets : Manager (List Item)
other_secrets = record manager {
  sticky = record manager.sticky {
    store = record sample {
      real_tokens =
          record real_1 { access_token = "sk-8"; refresh_token = "again" }
          ∷ record real_2 { access_token = "sk-9" }
          ∷ [];
    };
  };
}

abbrev calls : List AdminCall
calls =
    record { io = calm 1; draws = draws; route = lists real; request = asked }
    ∷ record { io = calm 2; draws = draws; route = deactivates real; request = asked }
    ∷ record { io = calm 3; draws = draws; route = deletes gate; request = asked }
    ∷ record { io = calm 4; draws = draws; route = usage_all; request = asked }
    ∷ []

orders : OrdersBlind simple_engine
orders = record { blind = λ rs. refl }

replies_blind_example :
    replies codecs simple_engine calls manager ≡ replies codecs simple_engine calls other_secrets
replies_blind_example =
    replies_blind codecs simple_engine calls manager other_secrets orders
      (refl, (refl, (refl, (refl, tt)))) refl
