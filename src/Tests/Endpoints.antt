-- ===== src/Tests/Endpoints.antt =====
-- ParseProtoAddr on concrete texts.
use gocsi.Base.{ℕ, suc, ◌≡◌, ◌↔◌, ◌⊎◌, refl, false, none, some, [], text, ◌==◌, cut}
use gocsi.Status.{plain}
use gocsi.Utils.Endpoint.{
  Files, is_blank, fold_case, is_guess, is_network, scheme, matches_guess, endpoint, failed,
  parse_proto_addr, get_csi_endpoint,
}
use gocsi.Utils.Endpoint.Laws.{IsAddress, IsUnix, IsSocketAt, parse_proto_addr-endpoint_iff}

-- Only "/csi.sock" is there, and no file can be created; the state counts the tries to create one.
abbrev files : Files ℕ
files = record {
  stat = λ s n. (s == text "/csi.sock", n);
  create = λ s n. (some (plain (text "denied")), suc n);
  close = λ s n. (none, n);
  remove_all = λ s n. (none, n);
  error_text = λ e. [];
}

parse_proto_addr-endpoint_iff_example :
    ((parse_proto_addr files (text "UnixPacket:///a b") 0).0
      ≡ endpoint (text "UnixPacket") (text "/a b"))
    ↔ ((is_blank (text "UnixPacket:///a b") ≡ false)
        × (IsAddress (text "UnixPacket:///a b") (text "UnixPacket") (text "/a b")
            ⊎ ((matches_guess (scheme (text "UnixPacket:///a b")) ≡ false)
                × IsUnix files (text "UnixPacket:///a b") (text "UnixPacket") (text "/a b")
                × IsSocketAt files
                    (text "UnixPacket:///a b")
                    (files.stat (text "UnixPacket:///a b") 0))))
parse_proto_addr-endpoint_iff_example =
    parse_proto_addr-endpoint_iff files (text "UnixPacket:///a b") (text "UnixPacket") (text "/a b")
      0

parse_proto_addr_tests :
    (parse_proto_addr files (text "UnixPacket:///a b") 0
      ≡ (endpoint (text "UnixPacket") (text "/a b"), 0))
    × (parse_proto_addr files (text "tcp4://1:2://3") 0
        ≡ (endpoint (text "tcp4") (text "1:2://3"), 0))
    × (parse_proto_addr files (text "tcp5://1") 0
        ≡ (failed (plain (text "invalid network address: tcp5://1")), 0))
    × (parse_proto_addr files (text "/csi.sock") 0 ≡ (endpoint (text "unix") (text "/csi.sock"), 0))
    × (parse_proto_addr files (text "tcp:80") 0
        ≡ (failed (plain (text "invalid implied sock file: tcp:80: ")), 1))
    × (get_csi_endpoint files (text " ") 0 ≡ (failed (plain (text "missing CSI_ENDPOINT")), 0))
unfolding parse_proto_addr get_csi_endpoint scheme is_guess is_network fold_case is_blank cut text
    ◌==◌
parse_proto_addr_tests = (refl, refl, refl, refl, refl, refl)
