-- ===== src/Examples/Agents.antt =====
-- Arrays that answer on the port of one type, agents whose connections are numbers, and replications.
use ibm_block_csi_driver.Prelude.{
  ℕ, ◌≡◌, refl, Bool, true, false, none, some, String, [], ◌∷◌, ◌++◌, ◌&&◌, insert, ◌==◌, nat_eq,
  arith,
}
use ibm_block_csi_driver.Outcome.{Outcome, returned}
use ibm_block_csi_driver.Requests.Secrets.{ArrayConnectionInfo}
use ibm_block_csi_driver.Requests.Ids.{ObjectIdInfo}
use ibm_block_csi_driver.Requests.Messages.{AddonsRequest}
use ibm_block_csi_driver.Requests.Addons.{mirror}
use ibm_block_csi_driver.Arrays.Mediator.{Replication, ReplicationRequest}
use ibm_block_csi_driver.Arrays.Pool.{Pool, get}
use ibm_block_csi_driver.Arrays.Agents.{
  array_type_to_port, detect_array_type, key_of, Agents, get_agent, borrow, give_back, with_pool,
}
use ibm_block_csi_driver.Arrays.Agents.Detection.{Detected, CacheIsTrue, detect_array_type-Detected}
use ibm_block_csi_driver.Arrays.Agents.Table.{Served, get_agent-Served}
use ibm_block_csi_driver.Arrays.Agents.Loans.{give_back-borrow}
use ibm_block_csi_driver.Examples.Fixture.{connection, secrets}

-- Only the A9000 at 10.0.0.1 answers.
abbrev reachable : String → ℕ → Bool
reachable e port = e == "10.0.0.1" && nat_eq port 7778

detect_array_type-Detected_example :
    Detected reachable (array_type_to_port 22) ("10.0.0.2" ∷ "10.0.0.1" ∷ []) (returned "A9000")
    × CacheIsTrue reachable (array_type_to_port 22) (("10.0.0.1", "A9000") ∷ [])
unfolding detect_array_type insert
detect_array_type-Detected_example =
    detect_array_type-Detected reachable (array_type_to_port 22) ("10.0.0.2" ∷ "10.0.0.1" ∷ []) []
      tt

abbrev no_agents : Agents ℕ
no_agents = record { cache = []; table = []; made = [] }

abbrev one_agent : String → Agents ℕ
one_agent password = record {
  cache = [];
  table = (key_of connection, 0) ∷ [];
  made =
      record {
        password = password;
        pool = record { max_size = 2; current_size = 1; channel = 5 ∷ [] };
      }
      ∷ [];
}

abbrev create : ArrayConnectionInfo → String → Outcome ℕ
create info t = returned 6

-- The agent has an old password: it is replaced.
get_agent-Served_example :
    Served connection (get_agent (λ c. true) create connection "A9000" (one_agent "old"))
get_agent-Served_example =
    get_agent-Served (λ c. true) create connection "A9000" (one_agent "old") (omega arith)

give_back-borrow_example :
    (q : Pool ℕ) × (get
        (λ c. true)
        (returned 6)
        (record { max_size = 2; current_size = 1; channel = 5 ∷ [] })
      ≡ (returned 5, q))
    × (give_back 0 5 (record {
      cache = [];
      table = (key_of connection, 0) ∷ [];
      made =
          record { password = "p"; pool = record { max_size = 2; current_size = 1; channel = [] } }
          ∷ [];
    })
        ≡ (
          returned tt,
          with_pool
              (one_agent "p")
              0
              (record {
                password = "p";
                pool = record { max_size = 2; current_size = 1; channel = 5 ∷ [] };
              })
              (record q { channel = q.channel ++ 5 ∷ [] }),
        ))
unfolding borrow get with_pool
give_back-borrow_example =
    give_back-borrow (λ c. true) 0
      (record {
        password = "p";
        pool = record { max_size = 2; current_size = 1; channel = 5 ∷ [] };
      })
      (returned 6) (one_agent "p") _ 5 refl (omega arith) (omega arith) refl

abbrev mirrored : Replication
mirrored = record {
  name = "rc";
  copy_type = "sync";
  is_ready = true;
  replication_type = mirror;
  is_primary = some false;
  volume_group_id = none;
}

abbrev wanted : ReplicationRequest
wanted = record {
  volume_internal_id = some "7";
  other_volume_internal_id = some "8";
  other_system_id = some "s";
  copy_type = "sync";
  replication_type = mirror;
  replication_policy = none;
}

abbrev policy_request : AddonsRequest
policy_request = record {
  volume_id = "A9000:7;6005";
  replication_id = "";
  replication_source = none;
  parameters = ("replication_policy", "p") ∷ [];
  secrets = secrets;
}

abbrev its_ids : ObjectIdInfo
its_ids = record {
  array_type = "A9000";
  system_id = none;
  ids = record { internal_id = some "7"; uid = some "6005" };
}
