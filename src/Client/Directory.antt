-- ===== src/Client/Directory.antt =====
-- services/tor-client/src/client/mod.rs: `DirectoryClient`. The gRPC call is the argument `service`, or
-- its answer. Instants are in seconds.
mod Fetched
pub mod Tests
use mini_tor.Prelude.{
  ℕ, ◌+◌, ◌%◌, ◌^◌, List, [], ◌∷◌, Bool, true, false, Option, none, some, Result, ok, err, length,
  ltb, ◌==◌, guard, map_err, ◌>>=◌, ◌>>◌, if◌then◌else◌,
}
use mini_tor.Types.{NodeDescriptor}
use mini_tor.Net.{Net}
use mini_tor.Proto.{ProtoNodeDescriptor, Invalid, descriptor_of}
use mini_tor.Discovery.Api.{Status}

pub data DirectoryError : Type 0 where
  request_failed : Status → DirectoryError
  bad_node : Invalid → DirectoryError
  wrong_length : ℕ → ℕ → DirectoryError

pub record DirectoryClient : Type 0 where
  pub cached_nodes : List NodeDescriptor
  pub cache_expiry : Option ℕ
  pub cache_ttl : ℕ

unfoldable pub from_channel : DirectoryClient
from_channel = record { cached_nodes = []; cache_expiry = none; cache_ttl = 300 }

unfoldable pub is_cache_valid : ℕ → DirectoryClient → Bool
is_cache_valid now c = elim c.cache_expiry [ none ↦ false | some expiry ↦ ltb now expiry ]

module _ ⦃net : Net⦄ where
  -- The first descriptor that does not convert ends it.
  unfoldable pub convert_all : List ProtoNodeDescriptor → Result Invalid (List NodeDescriptor)
  convert_all [] = ok []
  convert_all (d ∷ ds) = descriptor_of d >>= λ n. convert_all ds >>= λ ns. ok (n ∷ ns)

  unfoldable pub get_random_path :
      (ℕ → Result Status (List ProtoNodeDescriptor))
      → ℕ
      → Result DirectoryError (List NodeDescriptor)
  get_random_path service hop_count = do
    response ← map_err request_failed (service (hop_count % 2 ^ 32))
    nodes ← map_err bad_node (convert_all response)
    guard (length nodes == hop_count) (wrong_length hop_count (length nodes))
    ok nodes

  abbrev parsed :
      Result Status (List ProtoNodeDescriptor) → Result DirectoryError (List NodeDescriptor)
  parsed answer = do
    response ← map_err request_failed answer
    map_err bad_node (convert_all response)

  abbrev cached :
      ℕ
      → DirectoryClient
      → Result DirectoryError (List NodeDescriptor)
      → DirectoryClient × Result DirectoryError (List NodeDescriptor)
  cached arrived c (ok nodes) =
      (record c { cached_nodes = nodes; cache_expiry = some (arrived + c.cache_ttl) }, ok nodes)
  cached arrived c (err e) = (c, err e)

  -- The cached nodes until they expire; then the service's, which are cached from when they came.
  unfoldable pub get_all_nodes :
      ℕ
      → ℕ
      → Result Status (List ProtoNodeDescriptor)
      → DirectoryClient
      → DirectoryClient × Result DirectoryError (List NodeDescriptor)
  get_all_nodes now arrived answer c =
      if is_cache_valid now c then (c, ok c.cached_nodes) else cached arrived c (parsed answer)
