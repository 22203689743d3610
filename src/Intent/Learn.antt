-- ===== src/Intent/Learn.antt =====
-- What a batch of refusals teaches (intent/learn.py): the counts, the flags, the constraints for the
-- next solve with their cap.
--
-- A fraction is in thousandths. Texts are left out: a flag is a constructor with the values that its
-- text prints, and a rationale or next action is named by what it is for.
pub mod Taxonomy
pub mod Diagnosis
pub mod Counts
pub mod Blocks
pub mod Repeats
pub mod Evidence
use otto_q_core.Intent.Learn.Taxonomy.{
  Refusal, RefusalClass, RefusalKind, Triple, is_known, live_world, normalize, refusal_class,
  refusal_taxonomy, solver_gap, transient,
}
use otto_q_core.Base.Sort.{sort}
use otto_q_core.Base.{
  ℕ, ◌+◌, ◌*◌, String, Bool, true, false, not, ◌&&◌, Option, none, some, List, [], ◌∷◌, ◌++◌, map,
  ltb, ◌==◌, str_eq, str_le, if◌then◌else◌, length, filter, any, elem, set_of, Dict, lookup, insert,
  keys,
}

-- `d.get(k, 0)`
pub or_nought : Option ℕ → ℕ
or_nought none = 0
or_nought (some n) = n

-- `counts[rc] = counts.get(rc, 0) + 1`
pub add_one : String → Dict ℕ → Dict ℕ
add_one rc counts = insert rc (or_nought (lookup rc counts) + 1) counts

-- `set.add`
pub add_name : String → List String → List String
add_name x xs = if elem x xs then xs else xs ++ x ∷ []

-- One code: counted where it is known, else collected.
pub count_code : Bool → String → Dict ℕ × List String → Dict ℕ × List String
count_code true rc acc = (add_one rc acc.0, acc.1)
count_code false rc acc = (acc.0, add_name rc acc.1)

-- The loop over the records.
pub count_codes : List Triple → Dict ℕ × List String → Dict ℕ × List String
count_codes [] acc = acc
count_codes (t ∷ ts) acc = count_codes ts (count_code (is_known t.code) t.code acc)

-- `set()` where the key is absent.
pub or_none : Option (List String) → List String
or_none none = []
or_none (some xs) = xs

-- `if rule: rules.setdefault(rc, set()).add(rule)`
pub add_rule : String → Option String → Dict (List String) → Dict (List String)
add_rule rc none rules = rules
add_rule rc (some rule) rules =
    if str_eq rule "" then rules else insert rc (add_name rule (or_none (lookup rc rules))) rules

pub collect_rules : List Triple → Dict (List String) → Dict (List String)
collect_rules [] rules = rules
collect_rules (t ∷ ts) rules = collect_rules ts (add_rule t.code t.rule rules)

-- How often each code came for each entity, keyed by the pair.
abbrev pub Pairs : Type 0
Pairs = List ((String × String) × ℕ)

pub add_pair : String → String → Pairs → Pairs
add_pair rc eid [] = ((rc, eid), 1) ∷ []
add_pair rc eid (p ∷ ps) =
    if str_eq rc p.0.0 && str_eq eid p.0.1 then (p.0, p.1 + 1) ∷ ps else p ∷ add_pair rc eid ps

pub count_pair : String → Option String → Pairs → Pairs
count_pair rc none pairs = pairs
count_pair rc (some eid) pairs = if is_known rc then add_pair rc eid pairs else pairs

pub count_pairs : List Triple → Pairs → Pairs
count_pairs [] pairs = pairs
count_pairs (t ∷ ts) pairs = count_pairs ts (count_pair t.code t.entity pairs)

-- The pairs of a code that repeat beyond the threshold.
pub is_repeat : ℕ → String → (String × String) × ℕ → Bool
is_repeat threshold code p = str_eq p.0.0 code && ltb threshold p.1

pub repeats_of : ℕ → String → Pairs → List String
repeats_of threshold code pairs = map (λ p. p.0.1) (filter (is_repeat threshold code) pairs)

-- A flag with its code or constraint and its count, by which text it carries.
pub data Flag : Type 0 where
  solver_gap_flag : String → ℕ → List String → Flag
  live_world_flag : String → ℕ → List String → List String → Flag
  capped_flag : String → ℕ → ℕ → Flag

-- `f[0]`
pub flag_code : Flag → String
flag_code (solver_gap_flag code n rules) = code
flag_code (live_world_flag code n rules repeats) = code
flag_code (capped_flag kind n total) = kind

pub flag_le : Flag → Flag → Bool
flag_le f g = str_le (flag_code f) (flag_code g)

-- A live-world flag needs a repeat.
pub live_flag : String → ℕ → List String → List String → List Flag
live_flag code n rules [] = []
live_flag code n rules (e ∷ es) = live_world_flag code n rules (sort str_le (set_of (e ∷ es))) ∷ []

-- The flags of one code, by its kind.
pub flags_by : RefusalKind → String → ℕ → List String → List String → List Flag
flags_by transient code n rules repeats = []
flags_by live_world code n rules repeats = live_flag code n rules repeats
flags_by solver_gap code n rules repeats = solver_gap_flag code n rules ∷ []

-- `REFUSAL_TAXONOMY[code]`, for a code that is counted.
pub class_or : Option RefusalClass → RefusalClass
class_or none = refusal_class transient none
class_or (some c) = c

pub class_of : String → RefusalClass
class_of code = class_or (lookup code refusal_taxonomy)

-- The loop over the counts in the order of the codes.
pub code_flags : ℕ → Pairs → Dict (List String) → Dict ℕ → List Flag
code_flags threshold pairs rules [] = []
code_flags threshold pairs rules (c ∷ cs) =
    flags_by (class_of c.0).kind c.0 c.1 (sort str_le (or_none (lookup c.0 rules)))
      (repeats_of threshold c.0 pairs)
    ++ code_flags threshold pairs rules cs

pub by_name {ℓ} : {V : Type ℓ} → String × V → String × V → Bool
by_name a b = str_le a.0 b.0

-- `flagged`
pub is_flagged : RefusalKind → ℕ → String → Pairs → Bool
is_flagged transient threshold code pairs = false
is_flagged live_world threshold code pairs = any (is_repeat threshold code) pairs
is_flagged solver_gap threshold code pairs = true

-- The pair counts towards the constraint of a code.
pub counts_for : RefusalKind → ℕ → String → (String × String) × ℕ → Bool
counts_for transient threshold code p = is_repeat threshold code p
counts_for live_world threshold code p = is_repeat threshold code p
counts_for solver_gap threshold code p = str_eq p.0.0 code

-- The loop over the pairs that adds to a constraint's entities.
pub add_entities : Pairs → Dict ℕ → Dict ℕ
add_entities [] entities = entities
add_entities (p ∷ ps) entities =
    add_entities ps (insert p.0.1 (or_nought (lookup p.0.1 entities) + p.1) entities)

pub or_empty_dict : Option (Dict ℕ) → Dict ℕ
or_empty_dict none = []
or_empty_dict (some d) = d

-- One code's share in what is learned.
pub learn_one : Option String → RefusalKind → ℕ → String → Pairs → Dict (Dict ℕ) → Dict (Dict ℕ)
learn_one none kind threshold code pairs learned = learned
learn_one (some lc) kind threshold code pairs learned =
    if is_flagged kind threshold code pairs
    then (insert lc
        (add_entities (filter (counts_for kind threshold code) pairs)
          (or_empty_dict (lookup lc learned)))
        learned)
    else learned

-- The loop over the counts: kind of constraint, entity, how often.
pub learn : ℕ → Pairs → List String → Dict (Dict ℕ) → Dict (Dict ℕ)
learn threshold pairs [] learned = learned
learn threshold pairs (code ∷ codes) learned =
    learn threshold pairs codes (
      learn_one (class_of code).learned_constraint (class_of code).kind threshold code pairs
        learned)

-- More entities than the fraction of the capable ones allows; no declared total binds nothing.
pub exceeds : Option ℕ → ℕ → ℕ → Bool
exceeds none fraction n = false
exceeds (some total) fraction n =
    not (total == 0) && not (n == 0) && ltb (fraction * total) (1000 * n)

pub is_capped : Dict ℕ → ℕ → String × Dict ℕ → Bool
is_capped capable fraction e = exceeds (lookup e.0 capable) fraction (length e.1)

pub cap_flag : Dict ℕ → String × Dict ℕ → Flag
cap_flag capable e = capped_flag e.0 (length e.1) (or_nought (lookup e.0 capable))

-- What one kind teaches: nothing where it is capped.
pub constraint_of : List String → String × Dict ℕ → String × List String
constraint_of capped e = (e.0, if elem e.0 capped then [] else sort str_le (keys e.1))

-- An entry with its evidence and its lifetime.
pub record Learned : Type 0 where
  pub entity : String
  pub observed_count : ℕ
  pub run_id : Option String
  pub expires_after_n_solves : ℕ

-- `LEARNED_CONSTRAINT_TTL_SOLVES` and `DEFAULT_MAX_BLOCK_FRACTION`
abbrev pub learned_constraint_ttl_solves : ℕ
learned_constraint_ttl_solves = 1

abbrev pub default_max_block_fraction : ℕ
default_max_block_fraction = 500

pub detail_of : Dict (Dict ℕ) → Option String → String × List String → String × List Learned
detail_of learned run_id c = (
  c.0,
  map
      (λ e. record {
        entity = e;
        observed_count = or_nought (lookup e (or_empty_dict (lookup c.0 learned)));
        run_id = run_id;
        expires_after_n_solves = learned_constraint_ttl_solves;
      })
      c.1,
)

pub record ReconciliationReport : Type 0 where
  pub counts : Dict ℕ
  pub kinds : List (String × RefusalKind)
  pub flags : List Flag
  pub learned_constraints : Dict (List String)
  pub unknown_codes : List String
  pub unreadable : ℕ
  pub rule_codes : Dict (List String)
  pub learned_detail : Dict (List Learned)

pub has_none {ℓ} : {A : Type ℓ} → List A → Bool
has_none [] = true
has_none (x ∷ xs) = false

pub is_clean : ReconciliationReport → Bool
is_clean r = has_none r.flags && has_none r.unknown_codes && r.unreadable == 0

-- The keyword arguments of `reconcile_refusals`; no capable entities are the empty dict.
pub record Settings : Type 0 where
  pub entity_repeat_threshold : ℕ
  pub capable_entities : Dict ℕ
  pub max_block_fraction : ℕ
  pub run_id : Option String

-- The report from what was counted.
pub report_of :
    Settings → ℕ → Dict ℕ × List String → Dict (List String) → Pairs → ReconciliationReport
report_of s unreadable counted rules pairs =
    let learned = sort by_name (learn s.entity_repeat_threshold pairs (keys counted.0) []) in
    let over = filter (is_capped s.capable_entities s.max_block_fraction) learned in
    let constraints = map (constraint_of (keys over)) learned in
    record {
      counts = counted.0;
      kinds = map (λ c. (c.0, (class_of c.0).kind)) counted.0;
      flags = sort flag_le (
          sort flag_le (code_flags s.entity_repeat_threshold pairs rules (sort by_name counted.0))
          ++ map (cap_flag s.capable_entities) over);
      learned_constraints = constraints;
      unknown_codes = sort str_le counted.1;
      unreadable = unreadable;
      rule_codes = map (λ r. (r.0, sort str_le r.1)) (sort by_name rules);
      learned_detail = map (detail_of learned s.run_id) constraints;
    }

pub reconcile_refusals : List Refusal → Settings → ReconciliationReport
reconcile_refusals refusals s =
    let norm = normalize refusals in
    report_of s norm.1 (count_codes norm.0 ([], [])) (collect_rules norm.0 [])
      (count_pairs norm.0 [])
