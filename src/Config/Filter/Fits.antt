-- ===== src/Config/Filter/Fits.antt =====
-- The hosts in the filter text of cpworker/src/config.c, and the size of its buffer.
use cloud_probe.Prelude.{
  ◌+◌, ◌<◌, ◌≤◌, ◌≡◌, refl, sym, List, [], ◌∷◌, ◌++◌, length, Bool, true, false, ◌||◌, ◌&&◌, ◌==◌,
  Option, none, some, arith, if_both, length-append, append-nil, append_assoc, map, ap, ◌∙◌, inl,
  inr, ◌⊎◌, ◌↔◌,
}
use cloud_probe.Tasks.{Text}
use cloud_probe.Config.{codes, TaskConfig}
use mathlib.Core.List.{Memᴰ}
use cloud_probe.Config.Filter.Hosts.{Apart, ForwardsTo, task_hosts-Apart, task_hosts-ForwardsTo}
use cloud_probe.Config.Filter.{
  task_hosts, hosts_size, buf_size, print_hosts, filter_text, count_outputs,
  bpf_filter_exclude_task_output_hosts,
}

length-print_hosts :
    (b : Bool) (hosts : List Text) → length (print_hosts b hosts) ≤ hosts_size hosts
unfolding print_hosts hosts_size
length-print_hosts b [] = omega arith
length-print_hosts b (h ∷ hosts) =
    let rest = print_hosts false hosts in
    if_both
      (λ (first : Text).
        length (first ++ (codes "not host " ++ (h ++ rest)))
        ≤ length h + length (codes " and not host ") + hosts_size hosts)
      b (λ _. omega (arith, length-append h rest, length-print_hosts false hosts))
      (λ _. omega (arith, length-append h rest, length-print_hosts false hosts))

length-filter_text :
    (bpf : Text) (hosts : List Text) → length (filter_text bpf hosts) < buf_size bpf hosts
unfolding filter_text buf_size
length-filter_text [] hosts = omega (arith, length-print_hosts true hosts)
length-filter_text (c ∷ cs) hosts =
    omega (arith, length-append cs (b')' ∷ print_hosts false hosts), length-print_hosts false hosts)

-- Texts with "and" between them.
abbrev pub conjunction : List Text → Text
conjunction [] = []
conjunction (t ∷ []) = t
conjunction (t ∷ u ∷ ts) = t ++ (codes " and " ++ conjunction (u ∷ ts))

-- What is asked for already, in brackets.
abbrev pub asked : Text → List Text
asked [] = []
asked (c ∷ cs) = (codes "(" ++ ((c ∷ cs) ++ codes ")")) ∷ []

abbrev pub not_host : Text → Text
not_host host = codes "not host " ++ host

print_hosts-conjunction :
    (t : Text) (hosts : List Text)
    → (t ++ print_hosts false hosts) ≡ conjunction (t ∷ map not_host hosts)
unfolding print_hosts
print_hosts-conjunction t [] = append-nil t
print_hosts-conjunction t (h ∷ hosts) =
    ap (λ x. t ++ (codes " and " ++ x)) (print_hosts-conjunction (not_host h) hosts)

filter_text-conjunction :
    (bpf : Text) (hosts : List Text)
    → filter_text bpf hosts ≡ conjunction (asked bpf ++ map not_host hosts)
unfolding filter_text print_hosts
filter_text-conjunction [] [] = refl
filter_text-conjunction [] (h ∷ hosts) = print_hosts-conjunction (not_host h) hosts
filter_text-conjunction (c ∷ cs) hosts =
    ap (λ x. b'(' ∷ c ∷ x) (sym (append_assoc cs (b')' ∷ []) (print_hosts false hosts)))
    ∙ print_hosts-conjunction (codes "(" ++ ((c ∷ cs) ++ codes ")")) hosts

-- The text is what is asked for already and not one of the hosts, joined by "and".
pub record Excludes (bpf : Text) (tasks : List TaskConfig) (text : Text) : Type 0 where
  pub hosts : List Text
  pub printed : text ≡ conjunction (asked bpf ++ map not_host hosts)
  pub distinct : Apart hosts
  pub exact : (host : Text) → Memᴰ host hosts ↔ ForwardsTo tasks host
  pub fits : length text < buf_size bpf hosts

filter_text-Excludes :
    (bpf : Text) (tasks : List TaskConfig)
    → Excludes bpf tasks (filter_text bpf (task_hosts [] tasks))
filter_text-Excludes bpf tasks =
    let hosts = task_hosts [] tasks in
    record {
      hosts = hosts;
      printed = filter_text-conjunction bpf hosts;
      distinct = task_hosts-Apart tasks;
      exact = task_hosts-ForwardsTo tasks;
      fits = length-filter_text bpf hosts;
    }

-- Unless calloc or malloc fails, and then there is none, a filter text is made: the filter that was
-- given, in brackets and where it is not empty, and `not host` with each host that a VXLAN, GRE or
-- ZeroMQ output of the tasks forwards to, joined by ` and `. It has all these hosts and no other, each
-- of them once; with its final NUL it lies in the buffer of the size computed before.
pub filter_exclude-Excludes :
    (calloc_ok malloc_ok : Bool) (bpf : Text) (tasks : List TaskConfig)
    → let made = bpf_filter_exclude_task_output_hosts calloc_ok malloc_ok bpf tasks in
      ((text : Text) × (made ≡ some text) × Excludes bpf tasks text)
      ⊎ ((made ≡ none) × ((calloc_ok && malloc_ok) ≡ false))
unfolding bpf_filter_exclude_task_output_hosts
filter_exclude-Excludes calloc_ok malloc_ok bpf tasks =
    let text = filter_text bpf (task_hosts [] tasks) in
    if_both P (calloc_ok || count_outputs tasks == 0)
      (λ _.
        if_both P malloc_ok (λ _. inl (text, refl, filter_text-Excludes bpf tasks))
          (λ m. inr (refl, ground (arith, m))))
      (λ c. inr (refl, ground (arith, c)))
  where
    P : Option Text → Type 0
    P made =
        ((text : Text) × (made ≡ some text) × Excludes bpf tasks text)
        ⊎ ((made ≡ none) × ((calloc_ok && malloc_ok) ≡ false))
