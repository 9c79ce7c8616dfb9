-- ===== src/Api.antt =====
-- services/api/app/main.py: the request handlers of the API.
pub mod Service
pub mod Feedback
pub mod Lifespan
pub mod Predict
pub mod Stored
pub mod Reading
mod Examples
mod FeedbackExamples
mod ReadingExamples
