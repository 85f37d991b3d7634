-- ===== src/ProxyPlan/Direct.antt =====
-- proxy_plan.py: which proxy a consumer can get.
use engineering_flow_platfor.Base.{
  String, ◌≡◌, refl, ap, ◌≢◌, inl, inr, Bool, true, false, ◌&&◌, Option, none, some, arith,
  if◌then◌else◌, nat_eq, string_eq, pair_eq, Bool-cases, Option-cases, some_inj, contains, is_empty,
}
use engineering_flow_platfor.ProxyPlan.Library.{Library}
use engineering_flow_platfor.ProxyPlan.Entries.{ProxyEntry}
use engineering_flow_platfor.ProxyPlan.Build.{ProxyPlan, none_words, find_entry}
use engineering_flow_platfor.ProxyPlan.Choices.{
  Kind, Source, ProxyChoice, environment, no_proxy, proxy, disabled, assignment, instance_row,
  unknown, environment_words, plain, looks_like_url, exempts_host, is_default, is_assignment,
  entry_choice, assigned_to, listed_choice, assigned_choice, own_setting, enabled_entry, choice,
}

module _ (l : Library) (plan : ProxyPlan) (host : Option String) where
  -- A proxy of the list is only used while the connector is on and for a host that the proxy does not
  -- exempt; another one only where the consumer's own setting is its address.
  pub record IsSound (own : String) (c : ProxyChoice) : Type 0 where
    pub by_name :
        (e : ProxyEntry)
        → c.entry ≡ some e
        → (plan.enabled ≡ true) × (exempts_host l host e ≡ true → c.kind ≡ no_proxy)
    pub by_address : c.kind ≡ proxy → c.entry ≡ none → (c.url ≡ own) × (looks_like_url l own ≡ true)

  plain-IsSound : (own : String) (k : Kind) (s : Source) → k ≢ proxy → IsSound own (plain k s)
  plain-IsSound own k s other = record { by_name = λ e h. cc; by_address = λ h n. absurd (other h) }

  not_both :
      (d e : ProxyEntry) → e ≡ d → exempts_host l host e ≡ false → exempts_host l host d ≡ true → ⊥
  not_both d e same f t = cc (ap (exempts_host l host) same)

  entry_choice-IsSound :
      (own : String) (e : ProxyEntry) (s : Source)
      → plan.enabled ≡ true
      → IsSound own (entry_choice l plan e host s)
  unfolding entry_choice
  entry_choice-IsSound own e s on = elim (Bool-cases (exempts_host l host e)) [
    | inl exempt ↦ rw exempt (record { by_name = λ d h. (on, λ x. refl); by_address = λ h n. cc })
    | inr through ↦ elim (Bool-cases (is_assignment s && is_default plan.default e)) [
      | inl same ↦
          rw (through, same)
            (record {
              by_name = λ d h. (on, λ x. absurd (not_both d e (some_inj h) through x));
              by_address = λ h n. cc;
            })
      | inr other ↦
          rw (through, other)
            (record {
              by_name = λ d h. (on, λ x. absurd (not_both d e (some_inj h) through x));
              by_address = λ h n. cc;
            })
    ]
  ]

  listed_choice-IsSound :
      (own connector : String)
      → plan.enabled ≡ true
      → IsSound own (listed_choice l plan connector host)
  unfolding listed_choice
  listed_choice-IsSound own connector on =
      elim (Bool-cases (contains (l.lower (assigned_to connector plan)) environment_words)) [
        | inl follows ↦ rw follows (plain-IsSound own environment Source.environment (λ h. cc))
        | inr named ↦
            elim (Bool-cases (contains (l.lower (assigned_to connector plan)) none_words)) [
              | inl direct ↦ rw (named, direct) (plain-IsSound own no_proxy assignment (λ h. cc))
              | inr listed ↦
                  elim (Option-cases (find_entry (assigned_to connector plan) plan.entries)) [
                    | inl missing ↦
                        rw (named, listed, missing)
                          (plain-IsSound own environment unknown (λ h. cc))
                    | inr (e, found) ↦
                        rw (named, listed, found) (entry_choice-IsSound own e assignment on)
                  ]
            ]
      ]

  assigned_choice-IsSound :
      (own connector : String) → IsSound own (assigned_choice l plan connector host)
  unfolding assigned_choice
  assigned_choice-IsSound own connector = at plan.enabled refl
    where
      at :
          (on : Bool)
          → plan.enabled ≡ on
          → IsSound own
              (if on then listed_choice l plan connector host else plain environment disabled)
      at true on = listed_choice-IsSound own connector on
      at false off = plain-IsSound own environment disabled (λ h. cc)

  -- Whatever a consumer is assigned and whatever its own setting is: a proxy of the list is only chosen
  -- while the connector is on, and for a host that this proxy exempts the choice is to connect
  -- directly; a proxy that is not of the list is only chosen where the consumer's own setting is an
  -- address, and then it is that address.
  pub choice-IsSound :
      (connector : String) (instance_setting : Option String)
      → IsSound (own_setting instance_setting) (choice l plan connector host instance_setting)
  unfolding choice
  choice-IsSound connector instance_setting =
      let own = own_setting instance_setting in
      elim (Bool-cases (is_empty own)) [
        | inl nothing ↦ rw nothing (assigned_choice-IsSound own connector)
        | inr given ↦ elim (Bool-cases (contains (l.lower own) none_words)) [
          | inl direct ↦ rw (given, direct) (plain-IsSound own no_proxy instance_row (λ h. cc))
          | inr other ↦ elim (Option-cases (enabled_entry plan own)) [
            | inr (e, found) ↦
                rw (given, other, found)
                  (entry_choice-IsSound own e instance_row (is_on own e found))
            | inl missing ↦ elim (Bool-cases (looks_like_url l own)) [
              | inl url ↦
                  rw (given, other, missing, url)
                    (record { by_name = λ e h. cc; by_address = λ h n. (refl, url) })
              | inr name ↦ rw (given, other, missing, name) (assigned_choice-IsSound own connector)
            ]
          ]
        ]
      ]
    where
      is_on :
          (own : String) (e : ProxyEntry) → enabled_entry plan own ≡ some e → plan.enabled ≡ true
      is_on own e h = ground arith
