-- ===== src/Controls/Samples/Policy.antt =====
-- What the sample configurations let through.
use aemulus.Common.{◌≡◌, refl, subst, ◌∙◌, sym, inl, inr, true, String, string_Eq, some, ◌==◌, find}
use aemulus.Controls.Schema.{
  Numbers, Role, clerk, approver, controller, auditor, role_Eq, permission_Eq, Permission,
  approve_second, config_manage, override_amount, type_Eq, amount, amount_above, block_amount_above,
  ApControlConfig, OverrideRule, perms_for, includes,
}
use aemulus.Controls.Override.{allow, Actor, OverrideInput, evaluate_override}
use aemulus.Controls.Override.Authority.{IsIndependent, Authorized, evaluate_override-Authorized}
use aemulus.Controls.Samples.{small_firm}

module _ (n : Numbers) (trim : String → String) where
  open n use {greater, lit}

  small_firm-manager :
      (r : Role) → includes (perms_for n (small_firm n) r) config_manage ≡ true → r ≡ controller
  unfolding small_firm perms_for
  small_firm-manager clerk h = cc
  small_firm-manager approver h = cc
  small_firm-manager controller h = refl
  small_firm-manager auditor h = cc

  small_firm-second :
      (r : Role) → includes (perms_for n (small_firm n) r) approve_second ≡ true → r ≡ controller
  unfolding small_firm perms_for
  small_firm-second clerk h = cc
  small_firm-second approver h = cc
  small_firm-second controller h = refl
  small_firm-second auditor h = cc

  controller_of :
      (c : ApControlConfig n) (r : Role) (p : Permission)
      → c ≡ small_firm n
      → (includes (perms_for n (small_firm n) r) p ≡ true → r ≡ controller)
      → includes (perms_for n c r) p ≡ true
      → r ≡ controller
  controller_of c r p e only h = only (rw e at h)

  abbrev amount_rule : OverrideRule n
  amount_rule = record {
    type = amount;
    permission = override_amount;
    reason_required = true;
    second_approval = amount_above (lit 5000 0);
    hard_block = block_amount_above (lit 25000 0) config_manage;
  }

  small_firm-amount : find (λ r. r.type == amount) (small_firm n).overrides ≡ some amount_rule
  unfolding small_firm
  small_firm-amount = refl

  -- Under the small firm's configuration, an allowed override of an amount whose total is over
  -- 25,000 was made by a controller and seconded by another controller who is neither the actor
  -- nor the preparer.
  pub small_firm-hard_cap :
      (i : OverrideInput n)
      → i.config ≡ small_firm n
      → i.type ≡ amount
      → greater i.facts.total (lit 25000 0) ≡ true
      → (evaluate_override n trim i).decision ≡ allow
      → (i.actor.role ≡ controller)
        × ((second : Actor) × (i.second_approver ≡ some second)
            × IsIndependent n trim i second
            × (second.role ≡ controller))
  small_firm-hard_cap i config type over h =
      let (rule, found, a) = (evaluate_override-Authorized n trim i).0 h in
      let found' = rw (config, type) at found in
      let same : rule ≡ amount_rule = let e = sym found' ∙ small_firm-amount in cc e in
      let a' : Authorized n trim i amount_rule = subst (Authorized n trim i) same a in
      let (second, at, ind) = a'.seconded (rw over refl) in
      let manager : i.actor.role ≡ controller = elim a'.limited [
        | inl under ↦ absurd (let x = sym over ∙ under in cc x)
        | inr m ↦
            controller_of i.config i.actor.role config_manage config
              (small_firm-manager i.actor.role) m
      ] in
      (
        manager,
        (
          second,
          at,
          ind,
          controller_of i.config second.role approve_second config (small_firm-second second.role)
              ind.2,
        ),
      )
