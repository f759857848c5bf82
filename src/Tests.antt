-- ===== src/Tests.antt =====
-- Concrete runs of the model, and each theorem at an input that meets its hypotheses.
mod Fixtures
mod StateRuns
mod StateFileRuns
mod RequestRuns
mod PolicyRuns
mod RecoveryRuns
mod VersionRuns
mod TextRuns
mod JournalRuns
mod PreferenceRuns
mod UninstallRuns
mod CatalogRuns
