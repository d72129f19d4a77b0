-- ===== src/Tests/Connect.antt =====
-- Tests of the connections to Rancher: main.go.
use scale_cluster_agent.Connect.{
  Connections, Round, connect_loop, connect_round, again, next_backoff,
}
use scale_cluster_agent.Prelude.{◌≡◌, refl, true, false, [], ◌∷◌, Text, text_eq, codes}

abbrev nothing : Connections
nothing = record { last_attempt = []; active = [] }

abbrev a_name : Text
a_name = codes "a"

abbrev round : Round
round = record {
  token_ok = true;
  params_ok = true;
  marshal_ok = true;
  data_ok = true;
  address_ok = true;
  connects = true;
  ends_well = true;
  shut_down = false;
  now = 3000;
}

-- After two rounds the wait is four seconds.
two_rounds : (connect_loop (round ∷ round ∷ []) a_name 1 nothing).1 ≡ again 4
unfolding connect_loop connect_round next_backoff
two_rounds = refl
