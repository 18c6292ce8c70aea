-- ===== src/Netfilter/Installation.antt =====
-- What the installed chain does.
use condukt.Prelude.{
  ℕ, zero, suc, ◌^◌, ◌<◌, ◌⊎◌, ==_iff, Bool-cases, ◌≡◌, refl, sym, ap, ◌∙◌, true, ◌&&◌, ◌||◌, List,
  [], ◌∷◌, ◌++◌, Option, none, some, Str, codes, str_eq, ◌==◌, if◌then◌else◌, arith, append_assoc,
  append-nil, inl, inr,
}
use condukt.Prelude.Decimal.{decimal}
use condukt.Netfilter.{
  Args, System, Ran, not_started, ended, failure, run_iptables, build_rules, then_run, run_rules,
  run,
}
use condukt.Netfilter.Chain.{
  Packet, Verdict, untouched, redirected, ChainRule, walk, loopback_rule, owner_rule, redirect_rule,
  Appended, Appends,
}

-- Each list of arguments appends its rule.
abbrev AllAppend : System (List ChainRule) → Str → List (List Str) → List ChainRule → Type 0
AllAppend system bin [] [] = Unit
AllAppend system bin [] (r ∷ rs) = ⊥
AllAppend system bin (argv ∷ rest) [] = ⊥
AllAppend system bin (argv ∷ rest) (r ∷ rs) =
    ((chain : List ChainRule) → Appended r chain (system.output bin argv chain))
    × AllAppend system bin rest rs

abbrev take : ℕ → List ChainRule → List ChainRule
take zero rs = []
take (suc n) [] = []
take (suc n) (r ∷ rs) = r ∷ take n rs

-- A run has appended the rules up to its first failure, and all of them where it succeeds.
record Progress (rules chain : List ChainRule) (outcome : Option Str × List ChainRule)
    : Type 0 where
  count : ℕ
  reached : outcome.1 ≡ chain ++ take count rules
  complete : outcome.0 ≡ none → take count rules ≡ rules

run_rules-Progress :
    (system : System (List ChainRule)) (bin : Str) (argvs : List (List Str))
    (rules chain : List ChainRule)
    → AllAppend system bin argvs rules
    → Progress rules chain (run_rules system bin argvs chain)
unfolding run_rules run_iptables
run_rules-Progress system bin [] [] chain a = record {
  count = 0;
  reached = sym (append-nil chain);
  complete = λ e. refl;
}
run_rules-Progress system bin [] (r ∷ rs) chain a = absurd a
run_rules-Progress system bin (argv ∷ rest) [] chain a = absurd a
run_rules-Progress system bin (argv ∷ rest) (r ∷ rs) chain a =
    by_outcome (system.output bin argv chain) (a.0 chain)
      (λ after. run_rules-Progress system bin rest rs after a.1)
  where
    stopped :
        (e : Str) (after : List ChainRule) → after ≡ chain → Progress (r ∷ rs) chain (some e, after)
    stopped e after h = record {
      count = 0;
      reached = h ∙ sym (append-nil chain);
      complete = λ q. absurd (ground arith);
    }

    goes_on :
        (after : List ChainRule)
        → after ≡ chain ++ r ∷ []
        → Progress rs after (run_rules system bin rest after)
        → Progress (r ∷ rs) chain (run_rules system bin rest after)
    goes_on after h onward = record {
      count = suc onward.count;
      reached =
          onward.reached
          ∙ (ap (λ c. c ++ take onward.count rs) h
              ∙ append_assoc chain (r ∷ []) (take onward.count rs));
      complete = λ q. ap (λ t. r ∷ t) (onward.complete q);
    }

    by_outcome :
        (o : Ran × List ChainRule)
        → Appended r chain o
        → ((after : List ChainRule) → Progress rs after (run_rules system bin rest after))
        → Progress
            (r ∷ rs)
            chain
            (then_run (failure system bin argv o.0, o.1) (run_rules system bin rest))
    by_outcome (not_started e, after) h ih = stopped _ after h
    by_outcome (ended out, after) h ih = elim (Bool-cases out.success) [
      | inl e ↦ rw e (goes_on after (h ∙ rw e refl) (ih after))
      | inr e ↦ rw e (stopped _ after (h ∙ rw e refl))
    ]

abbrev rules_of : ℕ → ℕ → List ChainRule
rules_of port uid =
    loopback_rule ∷ owner_rule uid ∷ redirect_rule 80 port ∷ redirect_rule 443 port ∷ []

-- Any beginning of the chain leaves the packets that the bypasses name as they are.
walk-take :
    (port uid n : ℕ) (p : Packet)
    → (str_eq p.out_interface (codes "lo") ≡ true) ⊎ (p.owner ≡ uid)
    → walk (take n (rules_of port uid)) p ≡ untouched
walk-take port uid zero p h = refl
walk-take port uid (suc zero) p h = ground arith
walk-take port uid (suc (suc n)) p h = ground (arith, ==_iff p.owner uid)

-- The options are `u16` and `u32`.
abbrev pub IsInRange : Args → Type 0
IsInRange args = (args.proxy_port < 2 ^ 16) × (args.sidecar_uid < 2 ^ 32)

-- What becomes of a packet.
abbrev pub intended : Args → Packet → Verdict
intended args p =
    if str_eq p.out_interface (codes "lo") || p.owner == args.sidecar_uid
    then untouched
    else if p.tcp && (p.dport == 80 || p.dport == 443)
    then redirected args.proxy_port
    else untouched

walk-rules_of :
    (args : Args) (p : Packet)
    → walk (rules_of args.proxy_port args.sidecar_uid) p ≡ intended args p
walk-rules_of args p = elim (Bool-cases (str_eq p.out_interface (codes "lo"))) [
  | inl e ↦ rw e refl
  | inr e ↦ ground arith
]

build_rules-AllAppend :
    (system : System (List ChainRule)) (args : Args)
    → IsInRange args
    → Appends system
    → AllAppend system args.iptables_bin
        (build_rules args.proxy_port args.sidecar_uid)
        (rules_of args.proxy_port args.sidecar_uid)
unfolding build_rules decimal
build_rules-AllAppend system args (port, uid) a = (
  λ c. a.loopback args.iptables_bin c,
  (
    λ c. a.owned args.iptables_bin args.sidecar_uid c uid,
    (
      λ c. a.redirecting args.iptables_bin 80 args.proxy_port c (omega arith) port,
      (λ c. a.redirecting args.iptables_bin 443 args.proxy_port c (omega arith) port, tt),
    ),
  ),
)

-- For an `iptables` that appends a rule or fails and leaves the chain: started on an empty chain, a
-- successful run leaves loopback traffic and that of the sidecar's uid untouched, redirects all other
-- TCP traffic to the ports 80 and 443 to the proxy's port, and leaves the rest; and whichever call
-- fails, no loopback or sidecar packet is ever redirected.
pub run-intended :
    (system : System (List ChainRule)) (args : Args) (p : Packet)
    → IsInRange args
    → Appends system
    → ((run system args []).0 ≡ none → walk (run system args []).1 p ≡ intended args p)
      × ((str_eq p.out_interface (codes "lo") ≡ true) ⊎ (p.owner ≡ args.sidecar_uid)
          → walk (run system args []).1 p ≡ untouched)
unfolding run
run-intended system args p range a =
    let rules = rules_of args.proxy_port args.sidecar_uid in
    let progress =
      run_rules-Progress system args.iptables_bin (build_rules args.proxy_port args.sidecar_uid)
        rules [] (build_rules-AllAppend system args range a) in
    (
      λ e. ap (λ c. walk c p) (progress.reached ∙ progress.complete e) ∙ walk-rules_of args p,
      λ h.
          ap (λ c. walk c p) progress.reached
          ∙ walk-take args.proxy_port args.sidecar_uid progress.count p h,
    )
