-- ===== src/Nar/Matrix.antt =====
-- src/padrino/core/engine/resolvers/nar.py: the tiers, the action kinds and the resolution matrix.
use padrino.Base.{Bool, true, false, String, Eq}

pub data NarTier : Type 0 where
  roleblock redirect kill_protect_visit investigation death_reveal : NarTier

pub data NightActionKind : Type 0 where
  roleblock redirect factional_kill protect investigate : NightActionKind
  frame track watch clean serial_kill : NightActionKind

pub data MatrixEffect : Type 0 where
  unaffected nullifies_action retargets_action prevents_death : MatrixEffect
  records_visit reads_resolved_state suppresses_death_reveal falsifies_investigation : MatrixEffect

unfoldable pub NightActionKind-discrete : Discrete NightActionKind
NightActionKind-discrete = hlevel

unfoldable pub MatrixEffect-discrete : Discrete MatrixEffect
MatrixEffect-discrete = hlevel

instance abbrev pub night_action_kind_eq : Eq NightActionKind
night_action_kind_eq = record { dec = NightActionKind-discrete }

instance abbrev pub matrix_effect_eq : Eq MatrixEffect
matrix_effect_eq = record { dec = MatrixEffect-discrete }

-- `kind.value`
unfoldable pub kind_value : NightActionKind → String
kind_value NightActionKind.roleblock = "ROLEBLOCK"
kind_value NightActionKind.redirect = "REDIRECT"
kind_value NightActionKind.factional_kill = "FACTIONAL_KILL"
kind_value NightActionKind.protect = "PROTECT"
kind_value NightActionKind.investigate = "INVESTIGATE"
kind_value NightActionKind.frame = "FRAME"
kind_value NightActionKind.track = "TRACK"
kind_value NightActionKind.watch = "WATCH"
kind_value NightActionKind.clean = "CLEAN"
kind_value NightActionKind.serial_kill = "SERIAL_KILL"

pub record ResolutionMatrixRow : Type 0 where
  pub action_kind : NightActionKind
  pub tier : NarTier
  pub blocked : MatrixEffect
  pub protected : MatrixEffect
  pub killed : MatrixEffect
  pub redirected : MatrixEffect
  pub watched_tracked : MatrixEffect
  pub cleaned : MatrixEffect
  pub investigation : MatrixEffect
  pub records_visit : Bool
  pub records_visit_when_blocked : Bool

-- `RESOLUTION_MATRIX[kind]`
unfoldable pub resolution_matrix : NightActionKind → ResolutionMatrixRow
resolution_matrix NightActionKind.roleblock = record {
  action_kind = NightActionKind.roleblock;
  tier = NarTier.roleblock;
  blocked = MatrixEffect.unaffected;
  protected = MatrixEffect.unaffected;
  killed = MatrixEffect.unaffected;
  redirected = MatrixEffect.unaffected;
  watched_tracked = MatrixEffect.records_visit;
  cleaned = MatrixEffect.unaffected;
  investigation = MatrixEffect.unaffected;
  records_visit = true;
  records_visit_when_blocked = true;
}
resolution_matrix NightActionKind.redirect = record {
  action_kind = NightActionKind.redirect;
  tier = NarTier.redirect;
  blocked = MatrixEffect.nullifies_action;
  protected = MatrixEffect.unaffected;
  killed = MatrixEffect.unaffected;
  redirected = MatrixEffect.unaffected;
  watched_tracked = MatrixEffect.records_visit;
  cleaned = MatrixEffect.unaffected;
  investigation = MatrixEffect.unaffected;
  records_visit = true;
  records_visit_when_blocked = false;
}
resolution_matrix NightActionKind.factional_kill = record {
  action_kind = NightActionKind.factional_kill;
  tier = NarTier.kill_protect_visit;
  blocked = MatrixEffect.nullifies_action;
  protected = MatrixEffect.prevents_death;
  killed = MatrixEffect.unaffected;
  redirected = MatrixEffect.retargets_action;
  watched_tracked = MatrixEffect.records_visit;
  cleaned = MatrixEffect.unaffected;
  investigation = MatrixEffect.unaffected;
  records_visit = true;
  records_visit_when_blocked = false;
}
resolution_matrix NightActionKind.protect = record {
  action_kind = NightActionKind.protect;
  tier = NarTier.kill_protect_visit;
  blocked = MatrixEffect.nullifies_action;
  protected = MatrixEffect.prevents_death;
  killed = MatrixEffect.unaffected;
  redirected = MatrixEffect.retargets_action;
  watched_tracked = MatrixEffect.records_visit;
  cleaned = MatrixEffect.unaffected;
  investigation = MatrixEffect.unaffected;
  records_visit = true;
  records_visit_when_blocked = false;
}
resolution_matrix NightActionKind.investigate = record {
  action_kind = NightActionKind.investigate;
  tier = NarTier.investigation;
  blocked = MatrixEffect.nullifies_action;
  protected = MatrixEffect.unaffected;
  killed = MatrixEffect.reads_resolved_state;
  redirected = MatrixEffect.retargets_action;
  watched_tracked = MatrixEffect.records_visit;
  cleaned = MatrixEffect.unaffected;
  investigation = MatrixEffect.reads_resolved_state;
  records_visit = true;
  records_visit_when_blocked = false;
}
resolution_matrix NightActionKind.frame = record {
  action_kind = NightActionKind.frame;
  tier = NarTier.investigation;
  blocked = MatrixEffect.nullifies_action;
  protected = MatrixEffect.unaffected;
  killed = MatrixEffect.reads_resolved_state;
  redirected = MatrixEffect.retargets_action;
  watched_tracked = MatrixEffect.records_visit;
  cleaned = MatrixEffect.unaffected;
  investigation = MatrixEffect.falsifies_investigation;
  records_visit = true;
  records_visit_when_blocked = false;
}
resolution_matrix NightActionKind.track = record {
  action_kind = NightActionKind.track;
  tier = NarTier.investigation;
  blocked = MatrixEffect.nullifies_action;
  protected = MatrixEffect.unaffected;
  killed = MatrixEffect.reads_resolved_state;
  redirected = MatrixEffect.retargets_action;
  watched_tracked = MatrixEffect.records_visit;
  cleaned = MatrixEffect.unaffected;
  investigation = MatrixEffect.unaffected;
  records_visit = true;
  records_visit_when_blocked = false;
}
resolution_matrix NightActionKind.watch = record {
  action_kind = NightActionKind.watch;
  tier = NarTier.investigation;
  blocked = MatrixEffect.nullifies_action;
  protected = MatrixEffect.unaffected;
  killed = MatrixEffect.reads_resolved_state;
  redirected = MatrixEffect.retargets_action;
  watched_tracked = MatrixEffect.records_visit;
  cleaned = MatrixEffect.unaffected;
  investigation = MatrixEffect.unaffected;
  records_visit = true;
  records_visit_when_blocked = false;
}
resolution_matrix NightActionKind.clean = record {
  action_kind = NightActionKind.clean;
  tier = NarTier.death_reveal;
  blocked = MatrixEffect.nullifies_action;
  protected = MatrixEffect.unaffected;
  killed = MatrixEffect.unaffected;
  redirected = MatrixEffect.retargets_action;
  watched_tracked = MatrixEffect.records_visit;
  cleaned = MatrixEffect.suppresses_death_reveal;
  investigation = MatrixEffect.unaffected;
  records_visit = true;
  records_visit_when_blocked = false;
}
resolution_matrix NightActionKind.serial_kill = record {
  action_kind = NightActionKind.serial_kill;
  tier = NarTier.kill_protect_visit;
  blocked = MatrixEffect.nullifies_action;
  protected = MatrixEffect.prevents_death;
  killed = MatrixEffect.unaffected;
  redirected = MatrixEffect.retargets_action;
  watched_tracked = MatrixEffect.records_visit;
  cleaned = MatrixEffect.unaffected;
  investigation = MatrixEffect.unaffected;
  records_visit = true;
  records_visit_when_blocked = false;
}
