-- ===== src/Netfilter/Tests.antt =====
-- The rules of the source's own tests, and the theorem at a concrete `iptables`.
use condukt.Prelude.{
  ℕ, ◌≡◌, refl, true, false, ◌⊎◌, List, [], ◌∷◌, Option, none, some, Str, codes, str_eq, ◌++◌,
  arith,
}
use condukt.Prelude.Decimal.{parse_u64, parse_u64-decimal}
use condukt.Netfilter.{Args, System, Ran, ended, build_rules, run}
use condukt.Netfilter.Chain.{
  Packet, untouched, ChainRule, loopback_rule, owner_rule, redirect_rule, Appended, Appends, walk,
}
use condukt.Netfilter.Installation.{intended, run-intended}

threads_port_and_uid :
    build_rules 9999 4242
    ≡ (codes "-t"
        ∷ codes "nat"
        ∷ codes "-A"
        ∷ codes "OUTPUT"
        ∷ codes "-o"
        ∷ codes "lo"
        ∷ codes "-j"
        ∷ codes "RETURN"
        ∷ [])
      ∷ (codes "-t"
          ∷ codes "nat"
          ∷ codes "-A"
          ∷ codes "OUTPUT"
          ∷ codes "-m"
          ∷ codes "owner"
          ∷ codes "--uid-owner"
          ∷ codes "4242"
          ∷ codes "-j"
          ∷ codes "RETURN"
          ∷ [])
      ∷ (codes "-t"
          ∷ codes "nat"
          ∷ codes "-A"
          ∷ codes "OUTPUT"
          ∷ codes "-p"
          ∷ codes "tcp"
          ∷ codes "--dport"
          ∷ codes "80"
          ∷ codes "-j"
          ∷ codes "REDIRECT"
          ∷ codes "--to-port"
          ∷ codes "9999"
          ∷ [])
      ∷ (codes "-t"
          ∷ codes "nat"
          ∷ codes "-A"
          ∷ codes "OUTPUT"
          ∷ codes "-p"
          ∷ codes "tcp"
          ∷ codes "--dport"
          ∷ codes "443"
          ∷ codes "-j"
          ∷ codes "REDIRECT"
          ∷ codes "--to-port"
          ∷ codes "9999"
          ∷ [])
      ∷ []
unfolding build_rules
threads_port_and_uid = refl

abbrev success : Ran
success = ended (record { success = true; code = some 0; stderr = [] })

abbrev refusal : Ran
refusal = ended (record { success = false; code = some 2; stderr = codes "Bad argument" })

abbrev append_owner : Option ℕ → List ChainRule → Ran × List ChainRule
append_owner none chain = (refusal, chain)
append_owner (some uid) chain = (success, chain ++ owner_rule uid ∷ [])

abbrev append_redirect : Option ℕ → Option ℕ → List ChainRule → Ran × List ChainRule
append_redirect (some dport) (some port) chain = (success, chain ++ redirect_rule dport port ∷ [])
append_redirect dport port chain = (refusal, chain)

-- An `iptables` that tells the three forms apart by their number of arguments.
abbrev output : Str → List Str → List ChainRule → Ran × List ChainRule
output bin (a ∷ b ∷ c ∷ d ∷ e ∷ f ∷ g ∷ h ∷ []) chain = (success, chain ++ loopback_rule ∷ [])
output bin (a ∷ b ∷ c ∷ d ∷ e ∷ f ∷ g ∷ uid ∷ i ∷ j ∷ []) chain = append_owner (parse_u64 uid) chain
output bin (a ∷ b ∷ c ∷ d ∷ e ∷ f ∷ g ∷ dport ∷ i ∷ j ∷ k ∷ port ∷ []) chain =
    append_redirect (parse_u64 dport) (parse_u64 port) chain
output bin argv chain = (refusal, chain)

append_owner-Appended :
    (uid : ℕ) (o : Option ℕ) (chain : List ChainRule)
    → o ≡ some uid
    → Appended (owner_rule uid) chain (append_owner o chain)
append_owner-Appended uid o chain e = rw e refl

append_redirect-Appended :
    (dport port : ℕ) (o q : Option ℕ) (chain : List ChainRule)
    → o ≡ some dport
    → q ≡ some port
    → Appended (redirect_rule dport port) chain (append_redirect o q chain)
append_redirect-Appended dport port o q chain e f = rw (e, f) refl

abbrev iptables : System (List ChainRule)
iptables = record { output = output; debug_argv = λ argv. []; debug_code = λ code. [] }

iptables-Appends : Appends iptables
iptables-Appends = record {
  loopback = λ bin chain. refl;
  owned =
      λ bin uid chain h. append_owner-Appended uid _ chain (parse_u64-decimal uid (omega arith));
  redirecting = λ bin dport port chain h k.
      append_redirect-Appended dport port _ _ chain (parse_u64-decimal dport (omega arith))
        (parse_u64-decimal port (omega arith));
}

abbrev args : Args
args = record { proxy_port = 15001; sidecar_uid = 1337; iptables_bin = codes "iptables" }

abbrev packet : Packet
packet = record { out_interface = codes "eth0"; tcp = true; dport = 443; owner = 1000 }

run-intended_example :
    ((run iptables args []).0 ≡ none → walk (run iptables args []).1 packet ≡ intended args packet)
    × ((str_eq (codes "eth0") (codes "lo") ≡ true) ⊎ (packet.owner ≡ args.sidecar_uid)
        → walk (run iptables args []).1 packet ≡ untouched)
run-intended_example = run-intended iptables args packet (omega arith, omega arith) iptables-Appends

-- the run succeeds, so that the first part applies
run_succeeds : (run iptables args []).0 ≡ none
unfolding run parse_u64
run_succeeds = refl
