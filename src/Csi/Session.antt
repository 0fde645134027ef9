-- ===== src/Csi/Session.antt =====
-- What a handler of the servers reaches: the texts that it decodes, the nodes of Kubernetes, and the
-- arrays. A mediator is lent for the body of a `with` and given back after it.
use ibm_block_csi_driver.Prelude.{Option, String, List, Dict}
use ibm_block_csi_driver.Exec.{Exec, lift, attempt, ◌>>=◌, ◌>>◌}
use ibm_block_csi_driver.Requests.Secrets.{SystemInfo, ArrayConnectionInfo}
use ibm_block_csi_driver.Requests.Nodes.{NodeApi}
use ibm_block_csi_driver.Arrays.Mediator.{ArrayMediator}
use ibm_block_csi_driver.Arrays.Mapping.{Retry}

-- `json.loads` of a secret's config and of the parameters of a storage class by system; the hash of a
-- name; the nodes; the identity section of the config.
pub record Environment : Type 0 where
  pub load_config : String → Option (Dict SystemInfo)
  pub load_parameters : String → Option (Dict (Dict String))
  pub hash_string : String → String
  pub nodes : NodeApi
  pub plugin_name : String
  pub plugin_version : String

-- `detect_array_type`, and `get_agent(…).get_mediator()` up to its `yield`: the mediator, with the
-- `finally` that gives it back.
pub record Arrays (S : Type 0) : Type 1 where
  pub detect_array_type : List String → Exec S String
  pub get_mediator : ArrayConnectionInfo → String → Exec S (ArrayMediator S × Exec S (Unit {0}))
  pub retry : Retry S

module _ {S : Type 0} (arrays : Arrays S) {A : Type 0} where
  -- `with get_agent(info, array_type).get_mediator() as array_mediator:`
  unfoldable pub with_mediator :
      ArrayConnectionInfo → String → (ArrayMediator S → Exec S A) → Exec S A
  with_mediator info array_type body = do
    lent ← arrays.get_mediator info array_type
    r ← attempt (body lent.0)
    lent.1
    lift r
