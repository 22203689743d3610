-- ===== src/Tests.antt =====
-- Concrete inputs: each theorem with a hypothesis is applied where its hypotheses hold.
mod Frames
mod Chains
mod Intents
mod Fires
mod Recalls
mod Tariffs
mod Forecasts
mod Refusals
mod Segments
mod Adapters
mod Fronts
mod Curves
mod Yards
