-- ===== src/Conversion.antt =====
-- api/v1alpha1/argocd_conversion.go: from one version of the resource to the other.
pub mod Shared
pub mod Alpha
pub mod Beta
pub mod ToBeta
pub mod ToAlpha
pub mod Hub
