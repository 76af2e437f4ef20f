-- ===== src/Runtime/Names.antt =====
-- The agents that `bootstrap` creates: `_order_agents` and `_dedupe_agents` (src/agents/runtime.py).
use agenthedge.Prelude.{
  ◌≡◌, refl, ◌∙◌, Bool, false, not, ◌&&◌, ◌||◌, List, [], ◌∷◌, ◌++◌, String, if◌then◌else◌, ◌==◌,
  tally, eq_iff, arith,
}
use agenthedge.Message.{contains}

-- the loop over the pipeline
unfoldable pub pick_available : List String → List String → List String → List String
pick_available available [] ordered = ordered
pick_available available (name ∷ pipeline) ordered = pick_available available pipeline (
    if contains available name && not (contains ordered name)
    then ordered ++ (name ∷ [])
    else ordered)

-- the loop over the other agents
unfoldable pub add_missing : List String → List String → List String
add_missing [] ordered = ordered
add_missing (name ∷ agent_names) ordered =
    add_missing agent_names (if contains ordered name then ordered else ordered ++ (name ∷ []))

unfoldable pub order_agents : List String → List String → List String
unfolding pick_available add_missing
order_agents [] agent_names = agent_names
order_agents (p ∷ pipeline) agent_names =
    add_missing agent_names (pick_available agent_names (p ∷ pipeline) [])

-- an alias, where the agent that it stands for is there
abbrev pub is_alias : List String → String → Bool
is_alias agent_names name = name == "data_director" && contains agent_names "director"

unfoldable pub dedupe_from : List String → List String → List String → List String
dedupe_from agent_names seen [] = []
dedupe_from agent_names seen (name ∷ names) =
    let skipped = dedupe_from agent_names seen names in
    let kept = dedupe_from agent_names (name ∷ seen) names in
    if is_alias agent_names name || contains seen name then skipped else name ∷ kept

unfoldable pub dedupe_agents : List String → List String
unfolding dedupe_from
dedupe_agents agent_names = dedupe_from agent_names [] agent_names

-- `agent_names` of `bootstrap`: of the enabled agents, or of all where none is named
unfoldable pub agents_to_create : List String → List String → List String → List String
unfolding order_agents dedupe_agents
agents_to_create pipeline [] listed = dedupe_agents (order_agents pipeline listed)
agents_to_create pipeline (a ∷ enabled) listed = dedupe_agents (order_agents pipeline (a ∷ enabled))

contains-append :
    (xs ys : List String) (x : String) → contains (xs ++ ys) x ≡ (contains xs x || contains ys x)
contains-append [] ys x = refl
contains-append (y ∷ xs) ys x = ground (arith, contains-append xs ys x)

contains-pick :
    (available pipeline ordered : List String) (x : String)
    → contains available x ≡ false
    → contains (pick_available available pipeline ordered) x ≡ contains ordered x
unfolding pick_available
contains-pick available [] ordered x h = refl
contains-pick available (name ∷ pipeline) ordered x h = ground (
  arith,
  eq_iff name x,
  contains-append ordered (name ∷ []) x,
  contains-pick available pipeline ordered x,
  contains-pick available pipeline (ordered ++ (name ∷ [])) x,
)

contains-add_missing :
    (names ordered : List String) (x : String)
    → contains (add_missing names ordered) x ≡ (contains ordered x || contains names x)
unfolding add_missing
contains-add_missing [] ordered x = ground arith
contains-add_missing (name ∷ names) ordered x = ground (
  arith,
  eq_iff name x,
  contains-append ordered (name ∷ []) x,
  contains-add_missing names ordered x,
  contains-add_missing names (ordered ++ (name ∷ [])) x,
)

contains-order_agents :
    (pipeline names : List String) (x : String)
    → contains (order_agents pipeline names) x ≡ contains names x
unfolding order_agents
contains-order_agents [] names x = refl
contains-order_agents (p ∷ pipeline) names x = ground (
  arith,
  contains-pick names (p ∷ pipeline) [] x,
  contains-add_missing names (pick_available names (p ∷ pipeline) []) x,
)

tally-dedupe_from :
    (all seen names : List String) (x : String)
    → tally (λ y. y == x) (dedupe_from all seen names)
      ≡ (if contains names x && not (is_alias all x || contains seen x) then 1 else 0)
unfolding dedupe_from
tally-dedupe_from all seen [] x = refl
tally-dedupe_from all seen (name ∷ names) x = ground (
  arith,
  eq_iff name x,
  tally-dedupe_from all seen names x,
  tally-dedupe_from all (name ∷ seen) names x,
)

tally-dedupe_agents :
    (names : List String) (x : String)
    → tally (λ y. y == x) (dedupe_agents names)
      ≡ (if contains names x && not (is_alias names x) then 1 else 0)
unfolding dedupe_agents
tally-dedupe_agents names x = tally-dedupe_from names [] names x ∙ ground arith

created-once :
    (pipeline names : List String) (x : String)
    → tally (λ y. y == x) (dedupe_agents (order_agents pipeline names))
      ≡ (if contains names x && not (is_alias names x) then 1 else 0)
created-once pipeline names x =
    tally-dedupe_agents (order_agents pipeline names) x
    ∙ rw (contains-order_agents pipeline names x, contains-order_agents pipeline names "director")
        refl

-- the agents that are asked for
abbrev pub asked : List String → List String → List String
asked [] listed = listed
asked (a ∷ enabled) listed = a ∷ enabled

-- Whatever the pipeline, and however often a name stands in it or among the agents asked for, an agent
-- is created exactly once if it is asked for, and not at all otherwise, or if it is the data director
-- and the director, which it is another name of, is asked for too.
pub tally-agents_to_create :
    (pipeline enabled listed : List String) (x : String)
    → let names = asked enabled listed in
      tally (λ y. y == x) (agents_to_create pipeline enabled listed)
      ≡ (if contains names x && not (is_alias names x) then 1 else 0)
unfolding agents_to_create
tally-agents_to_create pipeline [] listed x = created-once pipeline listed x
tally-agents_to_create pipeline (a ∷ enabled) listed x = created-once pipeline (a ∷ enabled) x
