-- ===== src/Web.antt =====
-- internal/web: what the HTTP layer computes: the language of a request, the view models, and the
-- handlers over the controller, the store and the updater.
pub mod I18n
pub mod Views
pub mod Reply
pub mod Pages
pub mod Commands
pub mod History
pub mod Language
pub mod Updates
pub mod Setup
pub mod Examples
mod Tests
