-- ===== src/Deployments/Fantom.antt =====
-- helpers/contracts-deployments.ts and contracts-getters.ts: the vaults of the market of Fantom.
pub mod Addresses
use code4rena_may.Base.{String, Bool, List, []}
use code4rena_may.Effects.{Action, ◌>>=◌, ◌>>◌}
use code4rena_may.Deployments.{
  Deployer, Market, with_save_and_verify, insert_contract_address_in_db, connect,
}

module _ (D : Deployer) where
  unfoldable pub get_yearn_vault : Action D.World String
  get_yearn_vault = connect D "YearnVault"

  unfoldable pub deploy_yearn_vault : Bool → Action D.World String
  deploy_yearn_vault verify = D.construct "YearnVault" [] >>= λ instance1.
      with_save_and_verify D instance1 "YearnVaultImpl" [] verify >>= λ impl.
      D.addresses_provider
      >> (D.set_address_as_proxy "YEARN_VAULT" impl
          >> (D.set_address "YVWFTM" (D.param Market.fantom "YearnVaultFTM")
              >> (D.set_address "uniswapRouter" (D.param Market.fantom "UniswapRouter")
                  >> (D.set_address "WFTM" (D.param Market.fantom "WFTM")
                      >> (D.get_address "YEARN_VAULT" >>= λ proxy.
                          insert_contract_address_in_db D "YearnVault" proxy >> get_yearn_vault)))))

  unfoldable pub get_yearn_weth_vault : Action D.World String
  get_yearn_weth_vault = connect D "YearnWETHVault"

  unfoldable pub deploy_yearn_weth_vault : Bool → Action D.World String
  deploy_yearn_weth_vault verify = D.construct "YearnWETHVault" [] >>= λ instance1.
      with_save_and_verify D instance1 "YearnWETHVaultImpl" [] verify >>= λ impl.
      D.addresses_provider
      >> (D.set_address_as_proxy "YEARN_WETH_VAULT" impl
          >> (D.set_address "YVWETH" (D.param Market.fantom "YearnWETHVaultFTM")
              >> (D.set_address "WETH" (D.param Market.fantom "WETH")
                  >> (D.get_address "YEARN_WETH_VAULT" >>= λ proxy.
                      insert_contract_address_in_db D "YearnWETHVault" proxy
                      >> get_yearn_weth_vault))))

  unfoldable pub get_yearn_wbtc_vault : Action D.World String
  get_yearn_wbtc_vault = connect D "YearnWBTCVault"

  unfoldable pub deploy_yearn_wbtc_vault : Bool → Action D.World String
  deploy_yearn_wbtc_vault verify = D.construct "YearnWBTCVault" [] >>= λ instance1.
      with_save_and_verify D instance1 "YearnWBTCVaultImpl" [] verify >>= λ impl.
      D.addresses_provider
      >> (D.set_address_as_proxy "YEARN_WBTC_VAULT" impl
          >> (D.set_address "YVWBTC" (D.param Market.fantom "YearnWBTCVaultFTM")
              >> (D.set_address "WBTC" (D.param Market.fantom "WBTC")
                  >> (D.get_address "YEARN_WBTC_VAULT" >>= λ proxy.
                      insert_contract_address_in_db D "YearnWBTCVault" proxy
                      >> get_yearn_wbtc_vault))))

  unfoldable pub get_yearn_boo_vault : Action D.World String
  get_yearn_boo_vault = connect D "YearnBOOVault"

  unfoldable pub deploy_yearn_boo_vault : Bool → Action D.World String
  deploy_yearn_boo_vault verify = D.construct "YearnBOOVault" [] >>= λ instance1.
      with_save_and_verify D instance1 "YearnBOOVaultImpl" [] verify >>= λ impl.
      D.addresses_provider
      >> (D.set_address_as_proxy "YEARN_BOO_VAULT" impl
          >> (D.set_address "YVBOO" (D.param Market.fantom "YearnBOOVaultFTM")
              >> (D.set_address "BOO" (D.param Market.fantom "BOO")
                  >> (D.get_address "YEARN_BOO_VAULT" >>= λ proxy.
                      insert_contract_address_in_db D "YearnBOOVault" proxy
                      >> get_yearn_boo_vault))))

  unfoldable pub get_tomb_ftm_beefy_vault : Action D.World String
  get_tomb_ftm_beefy_vault = connect D "TombFtmBeefyVault"

  unfoldable pub deploy_tomb_ftm_beefy_vault : Bool → Action D.World String
  deploy_tomb_ftm_beefy_vault verify = D.construct "TombFtmBeefyVault" [] >>= λ instance1.
      with_save_and_verify D instance1 "TombFtmBeefyVaultImpl" [] verify >>= λ impl.
      D.addresses_provider
      >> (D.set_address_as_proxy "BEEFY_TOMB_FTM_VAULT" impl
          >> (D.set_address "mooTombTOMB-FTM" (D.param Market.fantom "BeefyVaultTOMB_FTM")
              >> (D.set_address "TOMB_FTM_LP" (D.param Market.fantom "TOMB_FTM_LP")
                  >> (D.set_address "TOMB" (D.param Market.fantom "TOMB")
                      >> (D.get_address "BEEFY_TOMB_FTM_VAULT" >>= λ proxy.
                          insert_contract_address_in_db D "TombFtmBeefyVault" proxy
                          >> get_tomb_ftm_beefy_vault)))))

  unfoldable pub get_based_mimatic_beefy_vault : Action D.World String
  get_based_mimatic_beefy_vault = connect D "BasedMiMaticBeefyVault"

  unfoldable pub deploy_based_mimatic_beefy_vault : Bool → Action D.World String
  deploy_based_mimatic_beefy_vault verify = D.construct "BasedMimaticBeefyVault" [] >>= λ instance1.
      with_save_and_verify D instance1 "BasedMiMaticBeefyVaultImpl" [] verify >>= λ impl.
      D.addresses_provider
      >> (D.set_address_as_proxy "BEEFY_BASED_MIMATIC_VAULT" impl
          >> (D.set_address "mooTombBASED-MIMATIC" (D.param Market.fantom "BeefyVaultBASED_MIMATIC")
              >> (D.set_address "BASED_MIMATIC_LP" (D.param Market.fantom "BASED_MIMATIC_LP")
                  >> (D.set_address "BASED" (D.param Market.fantom "BASED")
                      >> (D.get_address "BEEFY_BASED_MIMATIC_VAULT" >>= λ proxy.
                          insert_contract_address_in_db D "BasedMiMaticBeefyVault" proxy
                          >> get_based_mimatic_beefy_vault)))))

  unfoldable pub get_yearn_fbeets_vault : Action D.World String
  get_yearn_fbeets_vault = connect D "YearnFBEETSVault"

  unfoldable pub deploy_yearn_fbeets_vault : Bool → Action D.World String
  deploy_yearn_fbeets_vault verify = D.construct "YearnFBEETSVault" [] >>= λ instance1.
      with_save_and_verify D instance1 "YearnFBEETSVaultImpl" [] verify >>= λ impl.
      D.addresses_provider
      >> (D.set_address_as_proxy "YEARN_FBEETS_VAULT" impl
          >> (D.set_address "YVFBEETS" (D.param Market.fantom "YearnFBEETSVaultFTM")
              >> (D.set_address "fBEETS" (D.param Market.fantom "fBEETS")
                  >> (D.set_address "BEETS" (D.param Market.fantom "BEETS")
                      >> (D.get_address "YEARN_FBEETS_VAULT" >>= λ proxy.
                          insert_contract_address_in_db D "YearnFBEETSVault" proxy
                          >> get_yearn_fbeets_vault)))))

  unfoldable pub get_yearn_link_vault : Action D.World String
  get_yearn_link_vault = connect D "YearnLINKVault"

  unfoldable pub deploy_yearn_link_vault : Bool → Action D.World String
  deploy_yearn_link_vault verify = D.construct "YearnLINKVault" [] >>= λ instance1.
      with_save_and_verify D instance1 "YearnLINKVaultImpl" [] verify >>= λ impl.
      D.addresses_provider
      >> (D.set_address_as_proxy "YEARN_LINK_VAULT" impl
          >> (D.set_address "YVLINK" (D.param Market.fantom "YearnLINKVaultFTM")
              >> (D.set_address "LINK" (D.param Market.fantom "LINK")
                  >> (D.get_address "YEARN_LINK_VAULT" >>= λ proxy.
                      insert_contract_address_in_db D "YearnLINKVault" proxy
                      >> get_yearn_link_vault))))

  unfoldable pub get_beefy_eth_vault : Action D.World String
  get_beefy_eth_vault = connect D "BeefyETHVault"

  unfoldable pub deploy_beefy_eth_vault : Bool → Action D.World String
  deploy_beefy_eth_vault verify = D.construct "BeefyETHVault" [] >>= λ instance1.
      with_save_and_verify D instance1 "BeefyETHVaultImpl" [] verify >>= λ impl.
      D.addresses_provider
      >> (D.set_address_as_proxy "BEEFY_ETH_VAULT" impl
          >> (D.set_address "MOOWETH" (D.param Market.fantom "BeefyETHVault")
              >> (D.set_address "WETH" (D.param Market.fantom "WETH")
                  >> (D.get_address "BEEFY_ETH_VAULT" >>= λ proxy.
                      insert_contract_address_in_db D "BeefyETHVault" proxy
                      >> get_beefy_eth_vault))))

  unfoldable pub get_yearn_crv_vault : Action D.World String
  get_yearn_crv_vault = connect D "YearnCRVVault"

  unfoldable pub deploy_yearn_crv_vault : Bool → Action D.World String
  deploy_yearn_crv_vault verify = D.construct "YearnCRVVault" [] >>= λ instance1.
      with_save_and_verify D instance1 "YearnCRVVaultImpl" [] verify >>= λ impl.
      D.addresses_provider
      >> (D.set_address_as_proxy "YEARN_CRV_VAULT" impl
          >> (D.set_address "YVCRV" (D.param Market.fantom "YearnCRVVaultFTM")
              >> (D.set_address "CRV" (D.param Market.fantom "CRV")
                  >> (D.get_address "YEARN_CRV_VAULT" >>= λ proxy.
                      insert_contract_address_in_db D "YearnCRVVault" proxy
                      >> get_yearn_crv_vault))))

  unfoldable pub get_yearn_spell_vault : Action D.World String
  get_yearn_spell_vault = connect D "YearnSPELLVault"

  unfoldable pub deploy_yearn_spell_vault : Bool → Action D.World String
  deploy_yearn_spell_vault verify = D.construct "YearnSPELLVault" [] >>= λ instance1.
      with_save_and_verify D instance1 "YearnSPELLVaultImpl" [] verify >>= λ impl.
      D.addresses_provider
      >> (D.set_address_as_proxy "YEARN_SPELL_VAULT" impl
          >> (D.set_address "YVSPELL" (D.param Market.fantom "YearnSPELLVaultFTM")
              >> (D.set_address "SPELL" (D.param Market.fantom "SPELL")
                  >> (D.get_address "YEARN_SPELL_VAULT" >>= λ proxy.
                      insert_contract_address_in_db D "YearnSPELLVault" proxy
                      >> get_yearn_spell_vault))))
