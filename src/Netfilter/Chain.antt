-- ===== src/Netfilter/Chain.antt =====
-- A chain of rules, what it does to a packet, and what a call of `iptables` does to the chain.
use condukt.Prelude.{
  ℕ, ◌^◌, ◌<◌, ◌≡◌, Bool, ◌&&◌, List, [], ◌∷◌, ◌++◌, Str, codes, str_eq, ◌==◌, if◌then◌else◌,
}
use condukt.Prelude.Decimal.{decimal}
use condukt.Netfilter.{System, Ran, not_started, ended, rule}

-- an outgoing packet: its interface, whether it is TCP, its destination port and its owner's id
pub record Packet : Type 0 where
  pub out_interface : Str
  pub tcp : Bool
  pub dport : ℕ
  pub owner : ℕ

pub data Verdict : Type 0 where
  untouched : Verdict
  redirected : ℕ → Verdict

pub data Target : Type 0 where
  leaves : Target
  redirects : ℕ → Target

-- One rule of the chain: what it asks of a packet, and its target.
pub record ChainRule : Type 0 where
  pub matches : Packet → Bool
  pub target : Target

abbrev pub verdict_of : Target → Verdict
verdict_of leaves = untouched
verdict_of (redirects port) = redirected port

-- the first rule that matches decides, and the end of the chain leaves the packet as it is
abbrev pub walk : List ChainRule → Packet → Verdict
walk [] p = untouched
walk (r ∷ rest) p = let onward = walk rest p in if r.matches p then verdict_of r.target else onward

abbrev pub loopback_rule : ChainRule
loopback_rule = record { matches = λ p. str_eq p.out_interface (codes "lo"); target = leaves }

abbrev pub owner_rule : ℕ → ChainRule
owner_rule uid = record { matches = λ p. p.owner == uid; target = leaves }

abbrev pub redirect_rule : ℕ → ℕ → ChainRule
redirect_rule dport port = record {
  matches = λ p. p.tcp && p.dport == dport;
  target = redirects port;
}

-- On success the rule stands at the end of the chain, and on failure the chain is as it was.
abbrev pub Appended : ChainRule → List ChainRule → Ran × List ChainRule → Type 0
Appended r chain (not_started e, after) = after ≡ chain
Appended r chain (ended out, after) = after ≡ (if out.success then chain ++ r ∷ [] else chain)

-- The documented effect of `-t nat -A OUTPUT`, for the options that `run` passes.
pub record Appends (system : System (List ChainRule)) : Type 0 where
  pub loopback :
      (bin : Str) (chain : List ChainRule)
      → Appended loopback_rule chain (
          system.output bin
            (rule (
              codes "-A"
              ∷ codes "OUTPUT"
              ∷ codes "-o"
              ∷ codes "lo"
              ∷ codes "-j"
              ∷ codes "RETURN"
              ∷ []))
            chain)
  pub owned :
      (bin : Str) (uid : ℕ) (chain : List ChainRule)
      → uid < 2 ^ 32
      → Appended (owner_rule uid) chain (
          system.output bin
            (rule (
              codes "-A"
              ∷ codes "OUTPUT"
              ∷ codes "-m"
              ∷ codes "owner"
              ∷ codes "--uid-owner"
              ∷ decimal uid
              ∷ codes "-j"
              ∷ codes "RETURN"
              ∷ []))
            chain)
  pub redirecting :
      (bin : Str) (dport port : ℕ) (chain : List ChainRule)
      → dport < 2 ^ 16
      → port < 2 ^ 16
      → Appended (redirect_rule dport port) chain (
          system.output bin
            (rule (
              codes "-A"
              ∷ codes "OUTPUT"
              ∷ codes "-p"
              ∷ codes "tcp"
              ∷ codes "--dport"
              ∷ decimal dport
              ∷ codes "-j"
              ∷ codes "REDIRECT"
              ∷ codes "--to-port"
              ∷ decimal port
              ∷ []))
            chain)
