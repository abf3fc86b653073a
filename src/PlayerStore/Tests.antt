-- ===== src/PlayerStore/Tests.antt =====
-- Concrete runs of src/db/repo/postgres.js.
use free_fire.Prelude.{ℕ, refl, true, false, none, some, List, [], ◌∷◌, if◌then◌else◌, ◌==◌}
use free_fire.PlayerStore.Settlement.{PlayerResult, Db, Connection}
use free_fire.PlayerStore.Settlement.Ledger.{Delivery, deliver_all, IsBooked, deliver_all-IsBooked}
use free_fire.PlayerStore.Friends.{Social}
use free_fire.PlayerStore.Friends.Mutual.{asks, befriends, Act, act_all, IsMutual, act_all-IsMutual}

abbrev connection : Connection
connection = record { now = 5; insert_fails = false; update_fails = false; commit_fails = false }

abbrev result_of : ℕ → PlayerResult
result_of account = record {
  account_id = account;
  coins = 200;
  kills = 3;
  deaths = 1;
  win = true;
  rank_points = 20;
  xp = 50;
}

abbrev empty_ledger : Db
empty_ledger = record { results = []; balance = λ a. if a == 7 then some 1000 else none }

abbrev delivery_of : ℕ → Delivery
delivery_of account = record { connection = connection; match_id = 41; result = result_of account }

-- The stream delivers the entry of account 7 twice.
abbrev deliveries : List Delivery
deliveries = delivery_of 7 ∷ delivery_of 9 ∷ delivery_of 7 ∷ []

deliver_all-IsBooked_example : IsBooked empty_ledger.balance (deliver_all deliveries empty_ledger)
deliver_all-IsBooked_example = deliver_all-IsBooked deliveries empty_ledger refl

abbrev strangers : Social
strangers = record { friendships = []; requests = [] }

strangers-IsMutual : IsMutual strangers
strangers-IsMutual = record {
  both_ways = λ a b. refl;
  no_own_friend = λ a. refl;
  no_own_request = λ a. refl;
}

abbrev acts : List Act
acts = asks 7 9 ∷ befriends false 7 9 ∷ befriends true 7 11 ∷ asks 8 8 ∷ []

act_all-IsMutual_example : IsMutual (act_all acts strangers)
act_all-IsMutual_example = act_all-IsMutual acts strangers strangers-IsMutual
