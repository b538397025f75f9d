-- ===== src/Matchmaking/Profile.antt =====
-- internal/server/game/matchmaking.go: the profile of a player and the updates that it merges.
use Prim.Native.String.{String}
use text.Mathlib.Text.{◌==◌ as str_eq}
use dso.Base.{ℕ, Bool, true, false, not, ◌==◌, if◌then◌else◌, Option, none, some, List, [], ◌∷◌}
use dso.Matchmaking.Status.{
  PlayerStatus, PlayerLocation, StatsInfo, ItemUsingInfo, AllStatus, MatchingParameter,
}

-- The diagnostic map, as a function.
abbrev pub Fields : Type 0
Fields = String → Option ℕ

abbrev pub no_fields : Fields
no_fields name = none

pub record MatchProfile : Type 0 where
  pub received : Bool
  pub soul_memory : ℕ
  pub soul_level : ℕ
  pub covenant : Option ℕ
  pub online_activity_area : ℕ
  pub online_area : ℕ
  pub sitting_at_bonfire : Bool
  pub human_effigy_burnt : Bool
  pub guardians_seal : Bool
  pub bell_keepers_seal : Bool
  pub crest_of_the_rat : Bool
  pub name_engraved_ring : ℕ
  pub disable_cross_region : Bool
  pub sinner_points : ℕ
  pub stats_seen : Bool
  pub mp_soul_memory : ℕ
  pub mp_covenant : ℕ
  pub mp_seen : Bool
  pub status_fields : Fields

-- The zero value of the struct.
abbrev pub empty_profile : MatchProfile
empty_profile = record {
  received = false;
  soul_memory = 0;
  soul_level = 0;
  covenant = none;
  online_activity_area = 0;
  online_area = 0;
  sitting_at_bonfire = false;
  human_effigy_burnt = false;
  guardians_seal = false;
  bell_keepers_seal = false;
  crest_of_the_rat = false;
  name_engraved_ring = 0;
  disable_cross_region = false;
  sinner_points = 0;
  stats_seen = false;
  mp_soul_memory = 0;
  mp_covenant = 0;
  mp_seen = false;
  status_fields = no_fields;
}

unfoldable pub set_field : String → ℕ → Fields → Fields
set_field name v fields key = if str_eq key name then some v else fields key

-- A field that the update carries replaces the old value, as a number or as a flag.
abbrev pub number_or : Option ℕ → ℕ → ℕ
number_or none old = old
number_or (some v) old = v

abbrev pub flag_or : Option ℕ → Bool → Bool
flag_or none old = old
flag_or (some v) old = not (v == 0)

abbrev pub covenant_or : Option ℕ → Option ℕ → Option ℕ
covenant_or none old = old
covenant_or (some v) old = some v

abbrev pub seen_or : Option ℕ → Bool → Bool
seen_or none old = old
seen_or (some v) old = true

unfoldable pub merge_player : Option PlayerStatus → MatchProfile → MatchProfile
merge_player none p = p
merge_player (some st) p = record p {
  soul_memory = number_or st.soul_memory p.soul_memory;
  soul_level = number_or st.soul_level p.soul_level;
  covenant = covenant_or st.covenant p.covenant;
  sitting_at_bonfire = flag_or st.sitting_at_bonfire p.sitting_at_bonfire;
  human_effigy_burnt = flag_or st.human_effigy_burnt p.human_effigy_burnt;
  disable_cross_region = flag_or st.disable_cross_region_play p.disable_cross_region;
}

unfoldable pub merge_location : Option PlayerLocation → MatchProfile → MatchProfile
merge_location none p = p
merge_location (some loc) p = record p {
  online_activity_area = number_or loc.online_activity_area_id p.online_activity_area;
  online_area = number_or loc.online_area_id p.online_area;
}

unfoldable pub merge_stats : Option StatsInfo → MatchProfile → MatchProfile
merge_stats none p = p
merge_stats (some st) p = record p {
  sinner_points = number_or st.sinner_points p.sinner_points;
  stats_seen = seen_or st.sinner_points p.stats_seen;
}

unfoldable pub merge_items : Option ItemUsingInfo → MatchProfile → MatchProfile
merge_items none p = p
merge_items (some it) p = record p {
  guardians_seal = flag_or it.guardians_seal p.guardians_seal;
  bell_keepers_seal = flag_or it.bell_keepers_seal p.bell_keepers_seal;
  crest_of_the_rat = flag_or it.crest_of_the_rat p.crest_of_the_rat;
  name_engraved_ring = number_or it.named_ring_god p.name_engraved_ring;
}

-- The sweep over a table of names and optional values.
unfoldable pub sweep : List (String × Option ℕ) → Fields → Fields
unfolding set_field
sweep [] fields = fields
sweep ((name, none) ∷ rest) fields = sweep rest fields
sweep ((name, some v) ∷ rest) fields = sweep rest (set_field name v fields)

unfoldable pub player_table : Option PlayerStatus → List (String × Option ℕ)
player_table none = []
player_table (some st) =
    ("ps.archetype", st.archetype)
    ∷ ("ps.covenant", st.covenant)
    ∷ ("ps.unknown_4", st.unknown_4)
    ∷ ("ps.unknown_5", st.unknown_5)
    ∷ ("ps.unknown_6", st.unknown_6)
    ∷ ("ps.sitting_at_bonfire", st.sitting_at_bonfire)
    ∷ ("ps.disable_cross_region", st.disable_cross_region_play)
    ∷ ("ps.human_effigy_burnt", st.human_effigy_burnt)
    ∷ ("ps.unknown_13", st.unknown_13)
    ∷ ("ps.unknown_14", st.unknown_14)
    ∷ ("ps.soul_level", st.soul_level)
    ∷ ("ps.unknown_16", st.unknown_16)
    ∷ ("ps.unknown_17", st.unknown_17)
    ∷ ("ps.unknown_20", st.unknown_20)
    ∷ ("ps.phantom_leave_at_present", elim st.phantom_leave_at [ none ↦ none | some u ↦ some 1 ])
    ∷ []

unfoldable pub item_table : Option ItemUsingInfo → List (String × Option ℕ)
item_table none = []
item_table (some it) =
    ("item.named_ring_god", it.named_ring_god)
    ∷ ("item.dried_fingers", it.using_dried_fingers)
    ∷ ("item.unknown_3", it.unknown_3)
    ∷ ("item.guardians_seal", it.guardians_seal)
    ∷ ("item.bell_keepers_seal", it.bell_keepers_seal)
    ∷ ("item.crest_of_the_rat", it.crest_of_the_rat)
    ∷ ("item.unknown_7", it.unknown_7)
    ∷ ("item.unknown_8", it.unknown_8)
    ∷ []

unfoldable pub stats_table : Option StatsInfo → List (String × Option ℕ)
stats_table none = []
stats_table (some st) =
    ("stats.sinner_points", st.sinner_points)
    ∷ ("stats.unknown_1", st.unknown_1)
    ∷ ("stats.unknown_2", st.unknown_2)
    ∷ ("stats.unknown_5", st.unknown_5)
    ∷ ("stats.unknown_10", st.unknown_10)
    ∷ ("stats.unknown_12", st.unknown_12)
    ∷ ("stats.unknown_13", st.unknown_13)
    ∷ ("stats.unknown_14", st.unknown_14)
    ∷ []

unfoldable pub location_table : Option PlayerLocation → List (String × Option ℕ)
location_table none = []
location_table (some loc) =
    ("loc.online_area", loc.online_area_id)
    ∷ ("loc.activity_area", loc.online_activity_area_id)
    ∷ ("loc.cell", loc.cell_id)
    ∷ []

unfoldable pub merge_fields : AllStatus → MatchProfile → MatchProfile
merge_fields st p = record p {
  status_fields = sweep (location_table st.player_location) (
      sweep (stats_table st.stats_info) (
        sweep (item_table st.item_using_info)
          (sweep (player_table st.player_status) p.status_fields)));
}

-- An update that parses.
unfoldable pub merge_status : AllStatus → MatchProfile → MatchProfile
merge_status st p =
    let q = record p { received = true } in
    let q =
      merge_stats st.stats_info
        (merge_location st.player_location (merge_player st.player_status q)) in
    merge_items st.item_using_info (merge_fields st q)

-- protobuf's Unmarshal is a parameter; a blob that does not parse changes nothing.
unfoldable pub apply_status : (List ℕ → Option AllStatus) → List ℕ → MatchProfile → MatchProfile
apply_status unmarshal blob p = elim (unmarshal blob) [ none ↦ p | some st ↦ merge_status st p ]

unfoldable pub apply_matching_parameter : Option MatchingParameter → MatchProfile → MatchProfile
apply_matching_parameter none p = p
apply_matching_parameter (some mp) p = record p {
  received = true;
  mp_soul_memory = mp.soul_memory;
  mp_covenant = mp.covenant;
  mp_seen = true;
}

unfoldable pub effective_soul_memory : MatchProfile → ℕ
effective_soul_memory p = if not (p.soul_memory == 0) then p.soul_memory else p.mp_soul_memory

unfoldable pub effective_covenant : MatchProfile → ℕ
effective_covenant p = elim p.covenant [ some c ↦ c | none ↦ p.mp_covenant ]
