-- ===== src/Handler.antt =====
-- internal/handler: the handlers that change transactions, waivers, rules, budgets and categories. A
-- handler takes what the HTTP layer has read of its request (`none` where reading failed), and ends
-- with the body of its response or with an error status. The error texts are not modelled.
pub mod Http
pub mod Waivers
pub mod Assignment
pub mod BudgetText
pub mod BudgetRequest
pub mod Categories
pub mod Rules
pub mod Budgets
pub mod Audit
pub mod BudgetLines
mod Tests
mod BudgetTests
