-- ===== src/Phone/Admission.antt =====
-- How many connections one source may have open, `SourceAdmissionLimiter` of
-- app/src-tauri/src/peer.rs. The lock makes each call one step.
pub mod Counted
mod Tests
use ferusa.Base.{ℕ, ◌+◌, ◌-◌, Bool, Option, none, some, Text, text_eq, leb, ◌==◌, if◌then◌else◌}

-- `HashMap<String, usize>`.
abbrev pub Counts : Type 0
Counts = Text → Option ℕ

-- `insert`, and `remove` for `none`.
abbrev pub put : Text → Option ℕ → Counts → Counts
put source v counts t = if text_eq t source then v else counts t

abbrev pub or_zero : Option ℕ → ℕ
or_zero none = 0
or_zero (some n) = n

pub record SourceAdmissionLimiter : Type 0 where
  pub max_per_source : ℕ
  pub counts : Counts

pub record SourceAdmissionPermit : Type 0 where
  pub source : Text

unfoldable pub new : ℕ → SourceAdmissionLimiter
new max_per_source = record { max_per_source = max_per_source; counts = λ t. none }

-- `entry(source).or_insert(0)` leaves an entry, whether a permit is given or not.
unfoldable pub try_acquire :
    SourceAdmissionLimiter → Text → Option SourceAdmissionPermit × SourceAdmissionLimiter
try_acquire l source =
    let count = or_zero (l.counts source) in
    let counts = put source (some count) l.counts in
    if leb l.max_per_source count then (none, record l { counts = counts }) else (
      some (record { source = source }),
      record l { counts = put source (some (count + 1)) counts },
    )

abbrev released : Option ℕ → Text → SourceAdmissionLimiter → SourceAdmissionLimiter
released none source l = l
released (some count) source l = record l {
  counts =
      if count - 1 == 0 then put source none l.counts else put source (some (count - 1)) l.counts;
}

-- `Drop for SourceAdmissionPermit`, with `saturating_sub`.
unfoldable pub drop_permit : SourceAdmissionPermit → SourceAdmissionLimiter → SourceAdmissionLimiter
drop_permit permit l = released (l.counts permit.source) permit.source l
