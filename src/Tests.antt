-- ===== src/Tests.antt =====
-- Concrete inputs on which the development is exercised: a small JSON library, a selection by
-- sorting, and for each part of the program its runs.
mod Values
mod Sorting
mod StateRuns
mod PatchRuns
mod WebRuns
mod AutomationRuns
mod ContractRuns
mod TurnRuns
mod CoreRuns
mod RestartRuns
mod PromptRuns
mod HookRuns
