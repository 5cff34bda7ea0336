-- ===== src/Config/Filter/Hosts.antt =====
-- The hosts that cpworker/src/config.c collects for its filter text, and the outputs of the tasks.
use cloud_probe.Prelude.{
  ◌≡◌, ◌∙◌, refl, sym, List, [], ◌∷◌, ◌++◌, Bool, true, false, ◌||◌, ◌&&◌, not, Option, none, some,
  arith, if_both, and_true, or_true, inl, inr, ◌↔◌,
}
use mathlib.Core.Path.{subst}
use mathlib.Core.List.{Memᴰ}
use mathlib.Core.List.Memᴰ
use cloud_probe.Tasks.{Text, same_text}
use cloud_probe.Tasks.Owners.{same_text-eq, same_text_comm, same_text_self}
use cloud_probe.Config.{
  OutputKind, vxlan, gre, zmq, file, rotating_file, null, OutputConfig, TaskConfig,
}
use cloud_probe.Config.Filter.{output_forward_host, seen_host, add_host, output_hosts, task_hosts}

-- Whether the output sends packets to the host: a VXLAN or a GRE tunnel or a ZeroMQ socket.
abbrev pub Forwards : OutputKind → Text → Type 0
Forwards (vxlan c) host = c.host ≡ host
Forwards (gre c) host = c.host ≡ host
Forwards (zmq c) host = c.host ≡ host
Forwards (file name) host = ⊥
Forwards (rotating_file c) host = ⊥
Forwards null host = ⊥

-- An output of a task forwards to the host.
abbrev pub ForwardsTo : List TaskConfig → Text → Type 0
ForwardsTo tasks host =
    (t : TaskConfig) × (o : OutputConfig) × Memᴰ t tasks × Memᴰ o t.outputs × Forwards o.kind host

-- No host stands twice.
abbrev pub Apart : List Text → Type 0
Apart [] = Unit
Apart (h ∷ hosts) = ¬ (Memᴰ h hosts) × Apart hosts

-- Whether an output, a task or a configuration forwards to the host.
is_host : Option Text → Text → Bool
is_host none host = false
is_host (some h) host = same_text h host

output_forwards : List OutputConfig → Text → Bool
output_forwards [] host = false
output_forwards (o ∷ os) host = is_host (output_forward_host o.kind) host || output_forwards os host

forwards_to : List TaskConfig → Text → Bool
forwards_to [] host = false
forwards_to (t ∷ ts) host = output_forwards t.outputs host || forwards_to ts host

once : List Text → Bool
once [] = true
once (h ∷ hosts) = not (seen_host hosts h) && once hosts

or_assoc : (a b c : Bool) → ((a || b) || c) ≡ (a || (b || c))
or_assoc true b c = refl
or_assoc false b c = refl

or_absorb : (a b : Bool) → (b ≡ true → a ≡ true) → a ≡ (a || b)
or_absorb true b f = refl
or_absorb false true f = f refl
or_absorb false false f = refl

or_false : (a : Bool) → a ≡ (a || false)
or_false true = refl
or_false false = refl

seen_host-snoc :
    (hosts : List Text) (h host : Text)
    → seen_host (hosts ++ h ∷ []) host ≡ (seen_host hosts host || same_text h host)
unfolding seen_host
seen_host-snoc [] h host = sym (or_false (same_text h host))
seen_host-snoc (x ∷ hosts) h host =
    rw (seen_host-snoc hosts h host)
      (sym (or_assoc (same_text x host) (seen_host hosts host) (same_text h host)))

seen_host-add :
    (hosts : List Text) (o : Option Text) (host : Text)
    → seen_host (add_host hosts o) host ≡ (seen_host hosts host || is_host o host)
unfolding add_host is_host
seen_host-add hosts none host = or_false (seen_host hosts host)
seen_host-add hosts (some h) host =
    if_both (λ (l : List Text). seen_host l host ≡ (seen_host hosts host || same_text h host))
      (seen_host hosts h)
      (λ e.
        or_absorb (seen_host hosts host) (same_text h host)
          λ s. subst (λ t. seen_host hosts t ≡ true) (same_text-eq h host s) e)
      (λ _. seen_host-snoc hosts h host)

seen_host-outputs :
    (hosts : List Text) (os : List OutputConfig) (host : Text)
    → seen_host (output_hosts hosts os) host ≡ (seen_host hosts host || output_forwards os host)
unfolding output_hosts output_forwards
seen_host-outputs hosts [] host = or_false (seen_host hosts host)
seen_host-outputs hosts (o ∷ os) host =
    let forward = output_forward_host o.kind in
    rw (seen_host-outputs (add_host hosts forward) os host, seen_host-add hosts forward host)
      (or_assoc (seen_host hosts host) (is_host forward host) (output_forwards os host))

seen_host-tasks :
    (hosts : List Text) (ts : List TaskConfig) (host : Text)
    → seen_host (task_hosts hosts ts) host ≡ (seen_host hosts host || forwards_to ts host)
unfolding task_hosts forwards_to
seen_host-tasks hosts [] host = or_false (seen_host hosts host)
seen_host-tasks hosts (t ∷ ts) host =
    rw
      (
        seen_host-tasks (output_hosts hosts t.outputs) ts host,
        seen_host-outputs hosts t.outputs host,
      )
      (or_assoc (seen_host hosts host) (output_forwards t.outputs host) (forwards_to ts host))

once-snoc :
    (hosts : List Text) (h : Text)
    → once hosts ≡ true
    → seen_host hosts h ≡ false
    → once (hosts ++ h ∷ []) ≡ true
unfolding once seen_host
once-snoc [] h u e = refl
once-snoc (x ∷ hosts) h u e =
    let (new, rest) = and_true (not (seen_host hosts x)) (once hosts) u in
    ground (arith, seen_host-snoc hosts h x, same_text_comm x h, once-snoc hosts h rest, new, e)

once-add :
    (hosts : List Text) (o : Option Text) → once hosts ≡ true → once (add_host hosts o) ≡ true
unfolding add_host
once-add hosts none u = u
once-add hosts (some h) u =
    if_both (λ (l : List Text). once l ≡ true) (seen_host hosts h) (λ _. u) (once-snoc hosts h u)

once-outputs :
    (hosts : List Text) (os : List OutputConfig)
    → once hosts ≡ true
    → once (output_hosts hosts os) ≡ true
unfolding output_hosts
once-outputs hosts [] u = u
once-outputs hosts (o ∷ os) u =
    once-outputs (add_host hosts (output_forward_host o.kind)) os
      (once-add hosts (output_forward_host o.kind) u)

once-tasks :
    (hosts : List Text) (ts : List TaskConfig)
    → once hosts ≡ true
    → once (task_hosts hosts ts) ≡ true
unfolding task_hosts
once-tasks hosts [] u = u
once-tasks hosts (t ∷ ts) u =
    once-tasks (output_hosts hosts t.outputs) ts (once-outputs hosts t.outputs u)

seen_host-Mem : (hosts : List Text) (host : Text) → seen_host hosts host ≡ true → Memᴰ host hosts
unfolding seen_host
seen_host-Mem [] host e = cc
seen_host-Mem (h ∷ hosts) host e = elim (or_true (same_text h host) (seen_host hosts host) e) [
  | inl p ↦ Memᴰ.head (sym (same_text-eq h host p))
  | inr p ↦ Memᴰ.tail (seen_host-Mem hosts host p)
]

Mem-seen_host : (hosts : List Text) (host : Text) → Memᴰ host hosts → seen_host hosts host ≡ true
unfolding seen_host
Mem-seen_host [] host m = elim m [ ]
Mem-seen_host (h ∷ hosts) host (Memᴰ.head e) =
    ground (arith, subst (λ t. same_text t host ≡ true) e (same_text_self host))
Mem-seen_host (h ∷ hosts) host (Memᴰ.tail m) = ground (arith, Mem-seen_host hosts host m)

once-Apart : (hosts : List Text) → once hosts ≡ true → Apart hosts
unfolding once
once-Apart [] u = tt
once-Apart (h ∷ hosts) u =
    let (new, rest) = and_true (not (seen_host hosts h)) (once hosts) u in
    ((λ m. let e = Mem-seen_host hosts h m in ground (arith, e, new)), once-Apart hosts rest)

same_text_iff : (h host : Text) → (same_text h host ≡ true) ↔ (h ≡ host)
same_text_iff h host =
    (same_text-eq h host, λ e. subst (λ t. same_text t host ≡ true) (sym e) (same_text_self host))

is_host-Forwards :
    (kind : OutputKind) (host : Text)
    → (is_host (output_forward_host kind) host ≡ true) ↔ Forwards kind host
unfolding is_host output_forward_host
is_host-Forwards (vxlan c) host = same_text_iff c.host host
is_host-Forwards (gre c) host = same_text_iff c.host host
is_host-Forwards (zmq c) host = same_text_iff c.host host
is_host-Forwards (file name) host = (λ e. cc, λ e. absurd e)
is_host-Forwards (rotating_file c) host = (λ e. cc, λ e. absurd e)
is_host-Forwards null host = (λ e. cc, λ e. absurd e)

output_forwards-Forwards :
    (os : List OutputConfig) (host : Text)
    → (output_forwards os host ≡ true) ↔ ((o : OutputConfig) × Memᴰ o os × Forwards o.kind host)
unfolding output_forwards
output_forwards-Forwards [] host = (λ e. cc, λ (o, m, f). elim m [ ])
output_forwards-Forwards (o ∷ os) host = (
  λ e. elim (or_true (is_host (output_forward_host o.kind) host) (output_forwards os host) e) [
    | inl p ↦ (o, Memᴰ.head refl, (is_host-Forwards o.kind host).0 p)
    | inr p ↦ let (o', m, f) = (output_forwards-Forwards os host).0 p in (o', Memᴰ.tail m, f)
  ],
  λ (o', m, f). elim (Memᴰ.cases_cons m) [
    | inl e ↦
        let p =
          (is_host-Forwards o.kind host).1
            (subst (λ (x : OutputConfig). Forwards x.kind host) e f) in
        ground (arith, p)
    | inr m ↦ let p = (output_forwards-Forwards os host).1 (o', m, f) in ground (arith, p)
  ],
)

forwards_to-ForwardsTo :
    (ts : List TaskConfig) (host : Text) → (forwards_to ts host ≡ true) ↔ ForwardsTo ts host
unfolding forwards_to
forwards_to-ForwardsTo [] host = (λ e. cc, λ (t, o, m, k, f). elim m [ ])
forwards_to-ForwardsTo (t ∷ ts) host = (
  λ e. elim (or_true (output_forwards t.outputs host) (forwards_to ts host) e) [
    | inl p ↦
        let (o, k, f) = (output_forwards-Forwards t.outputs host).0 p in
        (t, o, Memᴰ.head refl, k, f)
    | inr p ↦
        let (t', o, m, k, f) = (forwards_to-ForwardsTo ts host).0 p in (t', o, Memᴰ.tail m, k, f)
  ],
  λ (t', o, m, k, f). elim (Memᴰ.cases_cons m) [
    | inl e ↦
        let p =
          (output_forwards-Forwards t.outputs host).1
            (o, subst (λ (x : TaskConfig). Memᴰ o x.outputs) e k, f) in
        ground (arith, p)
    | inr m ↦ let p = (forwards_to-ForwardsTo ts host).1 (t', o, m, k, f) in ground (arith, p)
  ],
)

-- The hosts that are collected are distinct, and just those that an output forwards to.
pub task_hosts-Apart : (ts : List TaskConfig) → Apart (task_hosts [] ts)
unfolding once
task_hosts-Apart ts = once-Apart (task_hosts [] ts) (once-tasks [] ts refl)

pub task_hosts-ForwardsTo :
    (ts : List TaskConfig) (host : Text) → Memᴰ host (task_hosts [] ts) ↔ ForwardsTo ts host
unfolding seen_host
task_hosts-ForwardsTo ts host =
    let same = seen_host-tasks [] ts host in
    let hosts = task_hosts [] ts in
    (
      λ m. (forwards_to-ForwardsTo ts host).0 (sym same ∙ Mem-seen_host hosts host m),
      λ f. seen_host-Mem hosts host (same ∙ (forwards_to-ForwardsTo ts host).1 f),
    )
