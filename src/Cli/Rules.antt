-- ===== src/Cli/Rules.antt =====
-- The udev rules that src/main.rs prints, read line by line, and what each line is for.
mod Lines
use Prim.Native.String.{String}
use headset_battery_indicato.Prelude.{
  ℕ, suc, ◌/◌, ◌%◌, ◌<◌, ◌≡◌, ◌≢◌, refl, ◌⊎◌, inl, inr, true, false, Option, none, some, List, [],
  ◌∷◌, ◌++◌, arith, Text, codes, ◌==◌, All, All-append, get_elem?, split_lines, starts_with,
}
use headset_battery_indicato.Headset.{Headset, hex_digit, hex4}
use headset_battery_indicato.Bridge.Daemon.{phys_prefix}
use headset_battery_indicato.Cli.Rules.Lines.{
  OneLine, OneLine-append, hex4-OneLine, split_lines-printed,
}
use headset_battery_indicato.Cli.Output.{
  printed, preamble, kind_lines, rule_of, comment_of, rules, found_rules, udev_rules_text,
}

-- The names of a headset that stand in the rules' comments.
abbrev pub IsNamed : Headset → Type 0
IsNamed headset = OneLine headset.name × OneLine headset.product

-- A line stands among the lines.
abbrev pub IsLine : Text → List Text → Type 0
IsLine line ls = (j : ℕ) × (get_elem? ls j ≡ some line)

-- A clause of a udev rule: a key is compared with, or is given, a quoted value.
pub record Clause : Type 0 where
  pub key : Text
  pub op : Text
  pub value : Text

-- A rule is its clauses, with commas between them.
abbrev pub rule : List Clause → Text
rule [] = []
rule (c ∷ []) = c.key ++ (c.op ++ (b'"' ∷ c.value ++ (b'"' ∷ [])))
rule (c ∷ d ∷ clauses) =
    c.key ++ (c.op ++ (b'"' ∷ c.value ++ (b'"' ∷ codes ", " ++ rule (d ∷ clauses))))

abbrev pub matches : String → Text → Clause
matches key value = record { key = codes key; op = codes "=="; value = value }

abbrev pub assigns : String → Text → Clause
assigns key value = record { key = codes key; op = codes "="; value = value }

-- The rule for the hidraw nodes of one vendor's product: its group may read and write them.
abbrev pub access_rule : Text → ℕ → ℕ → Text
access_rule group vendor product = rule (
    matches "KERNEL" (codes "hidraw*")
    ∷ matches "ATTRS{idVendor}" (hex4 vendor)
    ∷ matches "ATTRS{idProduct}" (hex4 product)
    ∷ assigns "GROUP" group
    ∷ assigns "MODE" (codes "0660")
    ∷ [])

rule_of-access_rule :
    (group : Text) (headset : Headset)
    → rule_of group headset ≡ access_rule group headset.vendor_id headset.product_id
rule_of-access_rule group headset = refl

module _ (group : Text) where
  -- A comment, a blank, the rule for the kind of the device, or the rule that gives the group access
  -- to the nodes of one of the headsets, by its vendor and its product.
  abbrev pub IsExplained : Option Text → List Headset → Text → Type 0
  IsExplained kind headsets line =
      (starts_with (codes "#") line ≡ true)
      ⊎ (line ≡ [])
      ⊎ (kind ≡ some line)
      ⊎ ((i : ℕ) × (headset : Headset) × (get_elem? headsets i ≡ some headset)
          × (line ≡ access_rule group headset.vendor_id headset.product_id))

  -- Each of the headsets has its rule among the lines.
  abbrev pub AllRuled : List Headset → List Text → Type 0
  AllRuled headsets ls =
      All (λ headset. IsLine (access_rule group headset.vendor_id headset.product_id) ls) headsets

module _ (group : Text) (one_group : OneLine group) where
  rule_of-OneLine : (headset : Headset) → OneLine (rule_of group headset)
  rule_of-OneLine headset =
      OneLine-append (codes "KERNEL==\"hidraw*\", ATTRS{idVendor}==\"") _ (omega arith) (
        OneLine-append (hex4 headset.vendor_id) _ (hex4-OneLine headset.vendor_id) (
          OneLine-append (codes "\", ATTRS{idProduct}==\"") _ (omega arith) (
            OneLine-append (hex4 headset.product_id) _ (hex4-OneLine headset.product_id) (
              OneLine-append (codes "\", GROUP=\"") _ (omega arith)
                (OneLine-append group (codes "\", MODE=\"0660\"") one_group (omega arith))))))

  comment_of-OneLine : (headset : Headset) → IsNamed headset → OneLine (comment_of headset)
  comment_of-OneLine headset h = OneLine-append (codes "# ") _ (omega arith) (
      OneLine-append headset.name _ h.0 (
        OneLine-append (codes " (") _ (omega arith)
          (OneLine-append headset.product (codes ")") h.1 (omega arith))))

  rules-OneLine :
      (headsets : List Headset) → All IsNamed headsets → All OneLine (rules group headsets)
  unfolding rules
  rules-OneLine [] h = tt
  rules-OneLine (headset ∷ headsets) h =
      (tt, (comment_of-OneLine headset h.0, (rule_of-OneLine headset, rules-OneLine headsets h.1)))

  found_rules-OneLine :
      (headsets : List Headset) → All IsNamed headsets → All OneLine (found_rules group headsets)
  unfolding rules
  found_rules-OneLine [] h = omega arith
  found_rules-OneLine (headset ∷ headsets) h = rules-OneLine (headset ∷ headsets) h

  printed_lines : Option Text → List Headset → List Text
  printed_lines kind headsets = preamble ++ (kind_lines kind ++ found_rules group headsets)

  kind_lines-OneLine :
      (kind : Option Text)
      → ((rule : Text) → kind ≡ some rule → OneLine rule)
      → All OneLine (kind_lines kind)
  kind_lines-OneLine none h = tt
  kind_lines-OneLine (some rule) h = (tt, (omega arith, (h rule refl, tt)))

  split_lines-udev :
      (kind_rule : Text → Option Text) (headsets : List Headset)
      → ((rule : Text) → kind_rule (phys_prefix ++ codes "/*") ≡ some rule → OneLine rule)
      → All IsNamed headsets
      → split_lines (udev_rules_text kind_rule group headsets)
        ≡ printed_lines (kind_rule (phys_prefix ++ codes "/*")) headsets
  unfolding udev_rules_text printed_lines
  split_lines-udev kind_rule headsets one named = split_lines-printed _ (
      All-append OneLine preamble _ (omega arith) (
        All-append OneLine (kind_lines (kind_rule (phys_prefix ++ codes "/*"))) _
          (kind_lines-OneLine (kind_rule (phys_prefix ++ codes "/*")) one)
          (found_rules-OneLine headsets named)))

  abbrev Among : List Headset → List Headset → Type 0
  Among some_of headsets =
      (i : ℕ) (headset : Headset)
      → get_elem? some_of i ≡ some headset
      → (j : ℕ) × (get_elem? headsets j ≡ some headset)

  rules-IsExplained :
      (kind : Option Text) (all some_of : List Headset)
      → Among some_of all
      → All (IsExplained group kind all) (rules group some_of)
  unfolding rules starts_with
  rules-IsExplained kind all [] h = tt
  rules-IsExplained kind all (headset ∷ some_of) h =
      let (j, e) = h 0 headset refl in
      (
        inr (inl refl),
        (
          inl refl,
          (
            inr (inr (inr (j, headset, e, rule_of-access_rule group headset))),
            rules-IsExplained kind all some_of (λ i other g. h (suc i) other g),
          ),
        ),
      )

  found_rules-IsExplained :
      (kind : Option Text) (headsets : List Headset)
      → All (IsExplained group kind headsets) (found_rules group headsets)
  unfolding rules starts_with
  found_rules-IsExplained kind [] = (inl refl, tt)
  found_rules-IsExplained kind (headset ∷ headsets) =
      rules-IsExplained kind (headset ∷ headsets) (headset ∷ headsets) (λ i other g. (i, g))

  kind_lines-IsExplained :
      (kind : Option Text) (headsets : List Headset)
      → All (IsExplained group kind headsets) (kind_lines kind)
  unfolding starts_with
  kind_lines-IsExplained none headsets = tt
  kind_lines-IsExplained (some rule) headsets =
      (inr (inl refl), (inl refl, (inr (inr (inl refl)), tt)))

  preamble-IsExplained :
      (kind : Option Text) (headsets : List Headset)
      → All (IsExplained group kind headsets) preamble
  unfolding starts_with
  preamble-IsExplained kind headsets =
      (inl refl, (inl refl, (inl refl, (inl refl, (inl refl, tt)))))

  IsLine-append :
      (line : Text) (before ls : List Text) → IsLine line ls → IsLine line (before ++ ls)
  IsLine-append line [] ls h = h
  IsLine-append line (l ∷ before) ls h = let (j, e) = IsLine-append line before ls h in (suc j, e)

  AllRuled-append :
      (headsets : List Headset) (before ls : List Text)
      → AllRuled group headsets ls
      → AllRuled group headsets (before ++ ls)
  AllRuled-append [] before ls h = tt
  AllRuled-append (headset ∷ headsets) before ls h =
      (IsLine-append (rule_of group headset) before ls h.0, AllRuled-append headsets before ls h.1)

  rules-AllRuled : (headsets : List Headset) → AllRuled group headsets (rules group headsets)
  unfolding rules
  rules-AllRuled [] = tt
  rules-AllRuled (headset ∷ headsets) = (
    (2, refl),
    AllRuled-append headsets ([] ∷ comment_of headset ∷ rule_of group headset ∷ [])
        (rules group headsets) (rules-AllRuled headsets),
  )

  found_rules-AllRuled :
      (headsets : List Headset) → AllRuled group headsets (found_rules group headsets)
  unfolding rules
  found_rules-AllRuled [] = tt
  found_rules-AllRuled (headset ∷ headsets) = rules-AllRuled (headset ∷ headsets)

  -- If the names of the headsets, the group and the rule for the kind hold no line feed, each line
  -- that `udev-rules` prints is a comment, a blank, that rule, or the rule, written out clause by
  -- clause, that gives the group access to the hidraw nodes of the vendor and the product of one of
  -- the headsets detected, and each of these has its rule.
  pub udev_rules-IsExplained :
      (kind_rule : Text → Option Text) (headsets : List Headset)
      → ((rule : Text) → kind_rule (phys_prefix ++ codes "/*") ≡ some rule → OneLine rule)
      → All IsNamed headsets
      → All
          (IsExplained group (kind_rule (phys_prefix ++ codes "/*")) headsets)
          (split_lines (udev_rules_text kind_rule group headsets))
        × AllRuled group headsets (split_lines (udev_rules_text kind_rule group headsets))
  unfolding printed_lines
  udev_rules-IsExplained kind_rule headsets one named =
      let kind = kind_rule (phys_prefix ++ codes "/*") in
      rw (split_lines-udev kind_rule headsets one named) (
        All-append _ preamble _ (preamble-IsExplained kind headsets) (
            All-append _ (kind_lines kind) _ (kind_lines-IsExplained kind headsets)
              (found_rules-IsExplained kind headsets)),
        AllRuled-append headsets preamble _
            (AllRuled-append headsets (kind_lines kind) _ (found_rules-AllRuled headsets)),
      )
