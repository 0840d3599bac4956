-- ===== src/Config/Tests.antt =====
-- A variable and a table of sylar/config.h at concrete inputs, and instances of the theorems about them.
use prozac.Prelude.{
  ℕ, zero, suc, List, length, In, ◌↔◌, true, concat_map, ◌≡◌, refl, false, some, [], ◌∷◌, codes, Eq,
  ◌==◌, ==_iff, if◌then◌else◌, map, lookup, insert, text_eq,
}
use prozac.Config.{ConfigVar, Call, Entry, Found, from_string, to_string, lookup_or_add, lookup_var}
use prozac.Config.Table.{Lookup, lookups, lookup_var-lookups}
use prozac.Yaml.{set_fields}
use prozac.Yaml.Flat.{toy, toy_laws}
use prozac.Env.{Env, get_absolute_path}
use prozac.FsUtil.Files.{Entries, list_all_file, reg, nil}
use prozac.FsUtil.Files
use prozac.Config.Casts.{Cast, in_order, by_key, text_less, sequence_cast, mapping_cast}
use prozac.Config.Trips.{
  IsRead, IsSafe, sequence_cast-IsSafe, mapping_cast-IsSafe, from_string-to_string,
}
use prozac.Config.Ordered.{in_order-IsRebuilt, IsOrdered, ordered-IsRebuilt, IsOrdered-AreDistinct}
use prozac.Config.Load.{Member, Given, load_from_yaml, load_from_yaml-Given}
use prozac.Config.Dir.{load_one, load_from_conf_dir, load_from_conf_dir_twice}

instance abbrev port_eq : Eq ℕ
port_eq = record { beq = ◌==◌; beq_iff = ==_iff }

abbrev port : ConfigVar ℕ
port = record { name = codes "server.port"; val = 80; cbs = 1 ∷ 4 ∷ [] }

-- What is returned says nothing of what was done.
from_string_read : from_string (λ s. some 90) (codes "90") port ≡ (
  record port { val = 90 },
  record { listener = 1; old = 80; new = 90 } ∷ record { listener = 4; old = 80; new = 90 } ∷ [],
  false,
)
unfolding from_string
from_string_read = refl

abbrev entry : Entry
entry = record { type = 2; addr = 7 }

added :
    lookup_or_add 2 (codes "server.port") 7 [] ≡ (Found.var 7, (codes "server.port", entry) ∷ [])
unfolding lookup_or_add lookup insert
added = refl

-- The digit nine is not allowed in a name.
nine : lookup_or_add 2 (codes "port9") 7 [] ≡ (Found.invalid_argument, [])
unfolding lookup_or_add lookup
nine = refl

abbrev later : List Lookup
later = (3, codes "server.port", 8) ∷ (2, codes "server.host", 9) ∷ []

lookup_var-lookups_example :
    (lookup_var 2
        (codes "server.port")
        (lookups later (lookup_or_add 2 (codes "server.port") 7 []).1)
      ≡ Found.var 7)
    × ((lookup_or_add 2
          (codes "server.port")
          10
          (lookups later (lookup_or_add 2 (codes "server.port") 7 []).1)).0
        ≡ Found.var 7)
lookup_var-lookups_example = lookup_var-lookups 2 2 7 10 (codes "server.port") [] later 7 found
  where
    found : (lookup_or_add 2 (codes "server.port") 7 []).0 ≡ Found.var 7
    found = rw added refl

-- Texts as members, which come back through the small instance of YAML.
abbrev text_cast : Cast (List ℕ)
text_cast = record { of_text = some; to_text = some }

abbrev names : List (List ℕ)
names = codes "a" ∷ codes "b c" ∷ []

sequence_cast-IsSafe_example :
    IsRead (sequence_cast toy text_cast in_order) names
    × IsSafe toy (sequence_cast toy text_cast in_order) names
sequence_cast-IsSafe_example =
    sequence_cast-IsSafe toy toy_laws text_cast in_order names (in_order-IsRebuilt names)
      (refl, (refl, tt))

-- A map to vectors.
abbrev groups : List (List ℕ × List (List ℕ))
groups = (codes "x", names) ∷ (codes "y", []) ∷ []

groups-IsOrdered : IsOrdered (λ a b. text_less a.0 b.0) groups
groups-IsOrdered = ((refl, tt), (tt, tt))

mapping_cast-IsSafe_example :
    IsRead (mapping_cast toy (sequence_cast toy text_cast in_order) by_key) groups
    × IsSafe toy (mapping_cast toy (sequence_cast toy text_cast in_order) by_key) groups
unfolding sequence_cast
mapping_cast-IsSafe_example =
    mapping_cast-IsSafe toy toy_laws (sequence_cast toy text_cast in_order) by_key groups
      (ordered-IsRebuilt (λ a b. text_less a.0 b.0) groups groups-IsOrdered)
      (IsOrdered-AreDistinct groups groups-IsOrdered) (refl, (refl, tt))

-- A number as the text of its bytes, one unit each.
abbrev number_cast : Cast ℕ
number_cast = record { of_text = λ s. some (length s); to_text = λ n. some (units n) }
  where
    units : ℕ → List ℕ
    units zero = []
    units (suc n) = b'1' ∷ units n

from_string-to_string_example :
    ((from_string number_cast.of_text
        (to_string number_cast.to_text port)
        (record port { val = 3 })).0
      ≡ record port { val = 80 })
    × (map
          (λ (c : Call ℕ). c.listener)
          (from_string number_cast.of_text
            (to_string number_cast.to_text port)
            (record port { val = 3 })).1
        ≡ (if 80 == 3 then [] else port.cbs))
from_string-to_string_example =
    from_string-to_string number_cast port (record port { val = 3 }) refl

abbrev table : List (List ℕ × Entry)
table = (codes "server.port", entry) ∷ []

-- server: {port: "8020"}
abbrev root : List ℕ
root =
    set_fields toy toy.null_node
      ((codes "server", set_fields toy toy.null_node ((codes "port", codes "8020") ∷ [])) ∷ [])

load_from_yaml-Given_example :
    In (7, codes "8020") (load_from_yaml toy table root)
    ↔ ((q : List ℕ) × (m : List ℕ) × Member toy [] root q m × Given toy table q m (7, codes "8020"))
load_from_yaml-Given_example = load_from_yaml-Given toy toy_laws table root (7, codes "8020")

loads_port : load_from_yaml toy table root ≡ (7, codes "8020") ∷ []
unfolding load_from_yaml lookup insert
loads_port = refl

abbrev env : Env
env = record { args = []; helps = []; program = []; exe = []; cwd = codes "/srv/" }

abbrev conf : Entries
conf = Files.entry (codes "a.yml") reg (Files.entry (codes "b.txt") reg nil)

load_from_conf_dir_twice_example :
    ((load_from_conf_dir toy (λ i. some root) (λ i. 5) table env conf (codes "conf") true []).1
      ≡ concat_map
          (load_one toy (λ i. some root) (λ i. 5) table)
          (list_all_file (codes ".yml") (get_absolute_path (codes "conf") env) conf))
    × ((load_from_conf_dir toy
          (λ i. some root)
          (λ i. 5)
          table
          env
          conf
          (codes "conf")
          false
          (load_from_conf_dir toy
            (λ i. some root)
            (λ i. 5)
            table
            env
            conf
            (codes "conf")
            false
            []).0).1
        ≡ [])
load_from_conf_dir_twice_example =
    load_from_conf_dir_twice toy (λ i. some root) (λ i. 5) table env conf (codes "conf") false []
