-- ===== src/Proto/Tests.antt =====
-- Conversions of a concrete descriptor.
use mini_tor.Prelude.{◌≡◌, refl, arith, [], ◌∷◌, replicate, length-replicate, none, some, ok}
use mini_tor.Types.{NodeType, NodeDescriptor, v4, v6}
use mini_tor.Net.Tests.{toy_net, parse-print}
use mini_tor.Proto.{ProtoNodeDescriptor, proto_descriptor, descriptor_of}
use mini_tor.Proto.RoundTrip.{descriptor_of-proto_descriptor}

abbrev pub an_exit : NodeDescriptor
an_exit = record {
  node_id = 101 ∷ 49 ∷ [];
  node_type = NodeType.exit;
  address = record { ip = v4 (10 ∷ 0 ∷ 0 ∷ 7 ∷ []); port = 9001 };
  public_key = replicate 32 9;
  bandwidth = 1000;
  exit_policy = some (record {
    allowed_ports = 80 ∷ 443 ∷ [];
    blocked_ports = 65535 ∷ [];
    allowed_ips = [];
    blocked_ips = v4 (127 ∷ 0 ∷ 0 ∷ 1 ∷ []) ∷ v6 (replicate 16 0) ∷ [];
  });
  operator_id = none;
  tls_cert_fingerprint = 97 ∷ 98 ∷ [];
}

abbrev pub on_wire : ProtoNodeDescriptor
on_wire = proto_descriptor ⦃net = toy_net⦄ an_exit

descriptor_of-proto_descriptor_example :
    descriptor_of ⦃net = toy_net⦄ (proto_descriptor ⦃net = toy_net⦄ an_exit) ≡ ok an_exit
descriptor_of-proto_descriptor_example =
    descriptor_of-proto_descriptor ⦃net = toy_net⦄ an_exit (length-replicate 32 9)
      record {
        allowed_u16 = (omega arith, (omega arith, tt));
        blocked_u16 = (omega arith, tt);
        allowed_octets = tt;
        blocked_octets = (refl, (length-replicate 16 0, tt));
      }
      (parse-print an_exit.address)
